-- ===== src/Shared/CardText/Version1.antt =====
-- Shared/CardFile.cpp: cards of version 1, with one side (`parseCardText`, `encodeCardText`).
use calc_u.Base.{
  ℕ, ◌+◌, ◌-◌, ◌*◌, Bool, true, false, ◌&&◌, if◌then◌else◌, leb, ltb, List, [], ◌∷◌, ◌++◌, Option,
  none, some, get_or, slice, ◌>>=◌, map_some, drop, length,
}
use calc_u.Core.Cpu.Printer.{text}
use calc_u.Shared.TextUtil.{starts_with, split_lines, parse_dec, parse_hex}
use calc_u.Shared.CardFile.{page_byte_of_bank}
use calc_u.Shared.TextUtil.Trim.{
  trim, before, behind, strip_inline_comment, to_upper, to_lower, text_eq,
}
use calc_u.Shared.CardText.{
  rows_per_bank, byte_value, bank_value, decode_card_row, side_lines, join_lines,
}
use calc_u.Shared.CardText.Reader.{CueFormat, cue_lines}

pub data Section : Type 0 where
  no_section cue_section header_section data_section : Section

-- The variables of the loop.
pub record Reading {ℓ} (Cue : Type ℓ) : Type ℓ where
  pub section_now : Section
  pub cue : Cue
  pub has_cue : Bool
  pub has_header : Bool
  pub has_data : Bool
  pub partition : ℕ
  pub data_type : ℕ
  pub page : ℕ
  pub protection : ℕ
  pub checksum : ℕ
  pub bytes : ℕ → ℕ
  pub row : ℕ

module _ {ℓ} {Cue : Type ℓ} where
  -- Unknown keys are ignored, and any type but a program is data.
  unfoldable pub read_field : List ℕ → List ℕ → Reading Cue → Option (Reading Cue)
  unfolding text_eq parse_dec parse_hex page_byte_of_bank
  read_field key val st =
      if text_eq key (text "partition")
      then map_some (λ v. record st { partition = v; has_header = true }) (byte_value val)
      else if text_eq key (text "datatype")
      then some (record st { data_type = if text_eq val (text "program") then 0x11 else 0x10 })
      else if text_eq key (text "bank")
      then map_some (λ v. record st { page = v }) (bank_value (parse_dec val))
      else if text_eq key (text "protection")
      then some (record st { protection = if text_eq val (text "yes") then 0x10 else 0x00 })
      else if text_eq key (text "checksum")
      then map_some (λ v. record st { checksum = v }) (byte_value val)
      else some st

  -- A line without a colon is ignored.
  unfoldable pub read_header : List ℕ → Reading Cue → Option (Reading Cue)
  unfolding behind before trim to_lower read_field
  read_header line st = elim (behind 58 line) [
    | none ↦ some st
    | some rest ↦ read_field (to_lower (trim (before 58 line))) (to_lower (trim rest)) st
  ]

  -- Rows past the thirtieth are checked, and ignored.
  unfoldable pub keep_row : List ℕ → Reading Cue → Reading Cue
  keep_row r st =
      let at = st.row * 8 in
      record st {
        bytes =
            if ltb st.row rows_per_bank
            then (λ i.
                if leb at i && ltb i (at + length r) then get_or r (i - at) 0 else st.bytes i)
            else st.bytes;
        row = st.row + 1;
      }

  module _ (cues : CueFormat Cue) where
    unfoldable pub read_plain : Section → List ℕ → Reading Cue → Option (Reading Cue)
    unfolding read_header decode_card_row keep_row
    read_plain no_section line st = some st
    read_plain cue_section line st = some (record st { cue = cues.parse_line line st.cue })
    read_plain header_section line st = read_header line st
    read_plain data_section line st = map_some (λ r. keep_row r st) (decode_card_row line)

    unfoldable pub read_stripped : List ℕ → Reading Cue → Option (Reading Cue)
    unfolding to_upper text_eq read_plain
    read_stripped [] st = some st
    read_stripped (c ∷ cs) st =
        let up = to_upper (c ∷ cs) in
        if text_eq up (text "CUECARD:")
        then some (record st { section_now = cue_section; has_cue = true })
        else if text_eq up (text "HEADER:")
        then some (record st { section_now = header_section })
        else if text_eq up (text "DATA:")
        then some (record st { section_now = data_section; has_data = true; row = 0 })
        else read_plain st.section_now (c ∷ cs) st

    unfoldable pub read_lines : List (List ℕ) → Reading Cue → Option (Reading Cue)
    unfolding strip_inline_comment read_stripped
    read_lines [] st = some st
    read_lines (l ∷ ls) st = read_stripped (strip_inline_comment l) st >>= read_lines ls

    abbrev begin_reading : Reading Cue
    begin_reading = record {
      section_now = no_section;
      cue = cues.fresh;
      has_cue = false;
      has_header = false;
      has_data = false;
      partition = 0;
      data_type = 0x11;
      page = 0x10;
      protection = 0x00;
      checksum = 0x00;
      bytes = λ i. 0;
      row = 0;
    }

    -- The bank and the cue card.
    unfoldable pub finished : Reading Cue → Option (List ℕ × Option Cue)
    finished st =
        if st.has_header && st.has_data
        then some (
          (st.partition ∷ st.data_type ∷ st.page ∷ st.protection ∷ [])
              ++ (slice st.bytes 0 240 ++ (st.checksum ∷ st.checksum ∷ [])),
          if st.has_cue then some (cues.on_magnet_card st.cue) else none,
        )
        else none

    unfoldable pub parse_card_text : List ℕ → Option (List ℕ × Option Cue)
    unfolding split_lines starts_with read_lines finished
    parse_card_text s =
        if starts_with (get_or (split_lines s) 0 []) (text "Calc-U-59 Card 1")
        then read_lines (drop 1 (split_lines s)) begin_reading >>= finished
        else none

    abbrev given_cue_lines : Option Cue → List (List ℕ)
    given_cue_lines none = []
    given_cue_lines (some cue) = cue_lines cues cue

    unfoldable pub encode_card_text : List ℕ → Option Cue → List ℕ
    unfolding side_lines
    encode_card_text image cue =
        join_lines (text "Calc-U-59 Card 1.0" ∷ (given_cue_lines cue ++ ([] ∷ side_lines image)))
