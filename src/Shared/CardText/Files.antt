-- ===== src/Shared/CardText/Files.antt =====
-- Shared/CardFile.cpp: a card file's bytes, in any layout, and the document of a fitted card.
use calc_u.Base.{
  ℕ, ◌-◌, Bool, ◌&&◌, ◌||◌, if◌then◌else◌, ltb, ◌==◌, List, [], ◌++◌, Option, none, some, get_or,
  drop, length, map_some,
}
use calc_u.Core.Cpu.Printer.{text}
use calc_u.Shared.TextUtil.{starts_with, split_lines}
use calc_u.Shared.TextUtil.Trim.{behind, lower_extension, text_eq, to_string}
use calc_u.Shared.TextUtil.Utf8.{is_valid_utf8}
use calc_u.Shared.CardFile.{bank_of_page_byte}
use calc_u.Shared.CardText.{card_bank_bytes, join_lines}
use calc_u.Shared.CardText.Reader.{
  CueFormat, CardDocument, side_of, set_side, document_lines, parse_card_text_v2,
}
use calc_u.Shared.CardText.Version1.{parse_card_text, encode_card_text}

abbrev text_magic : List ℕ
text_magic = text "Calc-U-59 Card "

abbrev text_magic_v2 : List ℕ
text_magic_v2 = text "Calc-U-59 Card 2"

abbrev binary_header : List ℕ
binary_header = text "Calc-U-59-CRD"

unfoldable pub is_card_file_name : List ℕ → Bool
unfolding lower_extension text_eq
is_card_file_name name =
    let ext = lower_extension name in text_eq ext (text "u59") || text_eq ext (text "bin")

unfoldable pub with_default_card_extension : List ℕ → List ℕ
unfolding behind
with_default_card_extension name = elim (behind 46 name) [
  | none ↦ name ++ text ".U59"
  | some e ↦ name
]

unfoldable pub bank_in : Option (List ℕ) → Option ℕ
unfolding bank_of_page_byte
bank_in none = none
bank_in (some image) =
    if ltb (length image) 3 then none else some (bank_of_page_byte (get_or image 2 0))

abbrev or_empty : Option (List ℕ) → List ℕ
or_empty none = []
or_empty (some image) = image

abbrev named : List ℕ → List ℕ → List ℕ
named name rest = text "Card file \"" ++ (name ++ (text "\"" ++ rest))

pub record Decoded {ℓ} (Cue : Type ℓ) : Type ℓ where
  pub card : Option (CardDocument Cue)
  pub error : List ℕ

module _ {ℓ} {Cue : Type ℓ} where
  -- The bank number in a side's header.
  unfoldable pub side_bank : CardDocument Cue → ℕ → Option ℕ
  unfolding bank_in side_of
  side_bank doc side = bank_in (side_of doc side)

  -- What a side feeds into the reader.
  unfoldable pub bank_bytes : CardDocument Cue → ℕ → List ℕ
  unfolding side_of
  bank_bytes doc side = if doc.version == 1 then doc.single_side else or_empty (side_of doc side)

  unfoldable pub set_bank : ℕ → List ℕ → CardDocument Cue → CardDocument Cue
  unfolding set_side
  set_bank side bytes doc =
      if doc.version == 1 then record doc { single_side = bytes } else set_side side bytes doc

  abbrev pub one_side : List ℕ → Option Cue → CardDocument Cue
  one_side image cue = record {
    version = 1;
    cue_card = cue;
    side_1 = none;
    side_2 = none;
    single_side = image;
  }

  abbrev good : CardDocument Cue → Decoded Cue
  good doc = record { card = some doc; error = [] }

  abbrev bad : List ℕ → Decoded Cue
  bad message = record { card = none; error = message }

  abbrev or_unparsed : List ℕ → Option (CardDocument Cue) → Decoded Cue
  or_unparsed name none = bad (named name (text " could not be parsed."))
  or_unparsed name (some doc) = good doc

  module _ (cues : CueFormat Cue) where
    -- A card in its own version.
    unfoldable pub encode_card_document : CardDocument Cue → List ℕ
    unfolding document_lines encode_card_text
    encode_card_document doc =
        if doc.version == 1
        then encode_card_text cues doc.single_side doc.cue_card
        else join_lines (document_lines cues doc)

    unfoldable pub decode_text : List ℕ → Option (CardDocument Cue)
    unfolding starts_with parse_card_text_v2 parse_card_text split_lines
    decode_text raw =
        if starts_with raw text_magic_v2
        then parse_card_text_v2 cues (split_lines raw)
        else map_some (λ r. one_side r.0 r.1) (parse_card_text cues raw)

    unfoldable pub decode_binary : List ℕ → List ℕ → Decoded Cue
    unfolding to_string
    decode_binary raw name =
        let payload = length raw - length binary_header in
        if payload == card_bank_bytes
        then good (one_side (drop (length binary_header) raw) none)
        else bad (
            named name (
              text " has wrong size ("
              ++ (to_string payload ++ text " bytes after header; expected 246).")))

    unfoldable pub decode_legacy : List ℕ → List ℕ → Decoded Cue
    unfolding to_string
    decode_legacy raw name =
        if (length raw == 246) || (length raw == 984)
        then good (one_side raw none)
        else bad (
            named name
              (text " has unrecognised size (" ++ (to_string (length raw) ++ text " bytes).")))

    -- A card file's raw bytes in any layout, with the file's name for the message.
    unfoldable pub decode_card_file : List ℕ → List ℕ → Decoded Cue
    unfolding starts_with is_valid_utf8 decode_text decode_binary decode_legacy
    decode_card_file raw name =
        if starts_with raw text_magic && is_valid_utf8 raw
        then or_unparsed name (decode_text raw)
        else if starts_with raw binary_header
        then decode_binary raw name
        else decode_legacy raw name
