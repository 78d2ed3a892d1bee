-- ===== src/Shared/CardText/Reader.antt =====
-- Shared/CardFile.cpp: reading and writing a card of version 2 (`parseCardTextV2`, `CardDocument`,
-- `encodeCardDocument`).
use calc_u.Base.{
  ℕ, zero, suc, ◌-◌, Bool, true, false, ◌||◌, if◌then◌else◌, ltb, List, [], ◌∷◌, ◌++◌, Option, none,
  some, slice, ◌>>=◌, map_some, ℤ, pos, negsuc, drop,
}
use calc_u.Core.Cpu.Printer.{text}
use calc_u.Shared.TextUtil.{starts_with, parse_dec}
use calc_u.Shared.TextUtil.Trim.{trim, strip_inline_comment, to_upper, text_eq, to_string}
use calc_u.Shared.CardText.{card_bank_bytes, side_lines}
use calc_u.Shared.CardText.Side.{SideBuilder, new_side, header_line, data_line, complete}

-- What the card formats use of a cue card (Shared/CueCard.hpp).
pub record CueFormat {ℓ} (Cue : Type ℓ) : Type ℓ where
  pub fresh : Cue
  pub parse_line : List ℕ → Cue → Cue
  pub encode_lines : Cue → List (List ℕ)
  pub on_magnet_card : Cue → Cue
  pub without_banks : Cue → Cue

-- The document of a card: version 2 has two sides, `none` when not written yet; version 1 has one.
pub record CardDocument {ℓ} (Cue : Type ℓ) : Type ℓ where
  pub version : ℕ
  pub cue_card : Option Cue
  pub side_1 : Option (List ℕ)
  pub side_2 : Option (List ℕ)
  pub single_side : List ℕ

unfoldable pub side_of {ℓ} : {Cue : Type ℓ} → CardDocument Cue → ℕ → Option (List ℕ)
side_of doc zero = doc.side_1
side_of doc (suc k) = doc.side_2

unfoldable pub set_side {ℓ} : {Cue : Type ℓ} → ℕ → List ℕ → CardDocument Cue → CardDocument Cue
set_side zero image doc = record doc { side_1 = some image }
set_side (suc k) image doc = record doc { side_2 = some image }

pub data Section : Type 0 where
  no_section cue_section side_section header_section data_section : Section

-- The variables of the loop. The index of the side is -1 at first, where it is never read.
pub record Reading {ℓ} (Cue : Type ℓ) : Type ℓ where
  pub section_now : Section
  pub doc : CardDocument Cue
  pub cue : Cue
  pub has_cue : Bool
  pub ended : Bool
  pub side : Option SideBuilder
  pub side_index : ℕ

-- What the upper case of a line is.
pub data Keyword : Type 0 where
  end_card_word cue_card_word side_word header_word data_word other_word : Keyword

unfoldable pub keyword_of : List ℕ → Keyword
unfolding text_eq starts_with
keyword_of up =
    if text_eq up (text "END-CARD")
    then end_card_word
    else if text_eq up (text "CUECARD:")
    then cue_card_word
    else if starts_with up (text "SIDE:")
    then side_word
    else if text_eq up (text "HEADER:")
    then header_word
    else if text_eq up (text "DATA:")
    then data_word
    else other_word

abbrev pub is_open : Option SideBuilder → Bool
is_open none = false
is_open (some sb) = true

abbrev pub is_written : Option (List ℕ) → Bool
is_written none = false
is_written (some image) = true

abbrev pub is_side : Section → Bool
is_side side_section = true
is_side _ = false

abbrev pub is_header : Section → Bool
is_header header_section = true
is_header _ = false

module _ {ℓ} {Cue : Type ℓ} where
  unfoldable pub finish_in : Option SideBuilder → Reading Cue → Option (Reading Cue)
  unfolding complete set_side
  finish_in none st = some st
  finish_in (some sb) st =
      if complete sb
      then some (record st {
        doc = set_side st.side_index (slice sb.bytes 0 card_bank_bytes) st.doc;
        side = none;
      })
      else none

  abbrev pub finish_side : Reading Cue → Option (Reading Cue)
  finish_side st = finish_in st.side st

  -- A side 1 or 2 that the document does not have yet.
  unfoldable pub open_side : Option ℤ → Reading Cue → Option (Reading Cue)
  unfolding side_of
  open_side none st = none
  open_side (some (negsuc k)) st = none
  open_side (some (pos n)) st =
      if ltb n 1 || ltb 2 n || is_written (side_of st.doc (n - 1))
      then none
      else some (record st { side_index = n - 1; side = some new_side; section_now = side_section })

  -- A reader over the builder of the open side, which a header's section and a data section have.
  abbrev pub on_side :
      (SideBuilder → Option SideBuilder) → Option SideBuilder → Reading Cue → Option (Reading Cue)
  on_side f none st = none
  on_side f (some sb) st = map_some (λ sb'. record st { side = some sb' }) (f sb)

  module _ (cues : CueFormat Cue) where
    -- A line that is no keyword.
    unfoldable pub read_plain : Section → List ℕ → Reading Cue → Option (Reading Cue)
    unfolding header_line data_line
    read_plain no_section line st = none
    read_plain side_section line st = none
    read_plain cue_section line st = some (record st { cue = cues.parse_line line st.cue })
    read_plain header_section line st = on_side (header_line line) st.side st
    read_plain data_section line st = on_side (data_line line) st.side st

    unfoldable pub read_keyword : Keyword → List ℕ → Reading Cue → Option (Reading Cue)
    unfolding finish_in open_side parse_dec trim read_plain
    read_keyword end_card_word line st =
        map_some (λ (s : Reading Cue). record s { ended = true }) (finish_side st)
    read_keyword cue_card_word line st =
        if is_open st.side || st.has_cue
        then none
        else some (record st { section_now = cue_section; has_cue = true })
    read_keyword side_word line st = finish_side st >>= open_side (parse_dec (trim (drop 5 line)))
    read_keyword header_word line st =
        if is_side st.section_now then some (record st { section_now = header_section }) else none
    read_keyword data_word line st =
        if is_header st.section_now then some (record st { section_now = data_section }) else none
    read_keyword other_word line st = read_plain st.section_now line st

    abbrev pub read_stripped : List ℕ → Reading Cue → Option (Reading Cue)
    read_stripped [] st = some st
    read_stripped (c ∷ cs) st = read_keyword (keyword_of (to_upper (c ∷ cs))) (c ∷ cs) st

    unfoldable pub read_line : List ℕ → Reading Cue → Option (Reading Cue)
    unfolding strip_inline_comment to_upper keyword_of read_keyword
    read_line raw st = read_stripped (strip_inline_comment raw) st

    -- Nothing is read behind the end of the card.
    unfoldable pub read_lines : List (List ℕ) → Reading Cue → Option (Reading Cue)
    unfolding read_line
    read_lines [] st = some st
    read_lines (l ∷ ls) st =
        let next = read_line l st >>= read_lines ls in if st.ended then some st else next

    abbrev pub begin_reading : Reading Cue
    begin_reading = record {
      section_now = no_section;
      doc = record { version = 2; cue_card = none; side_1 = none; side_2 = none; single_side = [] };
      cue = cues.fresh;
      has_cue = false;
      ended = false;
      side = none;
      side_index = 0;
    }

    abbrev pub with_cue : Reading Cue → CardDocument Cue
    with_cue st =
        let d = st.doc in
        if st.has_cue then record d { cue_card = some (cues.on_magnet_card st.cue) } else d

    abbrev pub finished : Reading Cue → Option (CardDocument Cue)
    finished st = if st.ended then some (with_cue st) else none

    -- The first line is the file's magic.
    unfoldable pub parse_card_text_v2 : List (List ℕ) → Option (CardDocument Cue)
    unfolding read_lines
    parse_card_text_v2 lines = read_lines (drop 1 lines) begin_reading >>= finished

    abbrev pub cue_lines : Cue → List (List ℕ)
    cue_lines cue = [] ∷ text "CUECARD:" ∷ cues.encode_lines cue

    abbrev pub optional_cue_lines : Option Cue → List (List ℕ)
    optional_cue_lines none = []
    optional_cue_lines (some cue) = cue_lines (cues.without_banks cue)

    abbrev pub optional_side_lines : ℕ → Option (List ℕ) → List (List ℕ)
    optional_side_lines n none = []
    optional_side_lines n (some image) = [] ∷ (text "SIDE: " ++ to_string n) ∷ side_lines image

    -- The lines of a card of version 2.
    unfoldable pub document_lines : CardDocument Cue → List (List ℕ)
    unfolding side_lines to_string
    document_lines doc =
        text "Calc-U-59 Card 2.0"
        ∷ (optional_cue_lines doc.cue_card
            ++ (optional_side_lines 1 doc.side_1
                ++ (optional_side_lines 2 doc.side_2 ++ ([] ∷ text "END-CARD" ∷ []))))
