-- ===== src/Shared/CardText/Examples.antt =====
-- Cards on which the theorems are applied.
use calc_u.Base.{
  ℕ, ◌*◌, ◌%◌, ◌<◌, ◌≡◌, refl, inr, List, [], ◌∷◌, ◌++◌, none, some, slice, upd, arith,
  length-slice,
}
use calc_u.Core.Cpu.Printer.{text}
use calc_u.Shared.CardFile.{page_byte_of_bank}
use calc_u.Shared.CardText.Headers.{IsCardBank}
use calc_u.Shared.CardText.Values.{slice-bytes}
use calc_u.Shared.CardText.Reader.{CueFormat, document_lines}
use calc_u.Shared.CardText.RoundTrip.{two_sides, parse-document_lines}
use calc_u.Shared.CardText.Sound.{IsDocument, parse_card_text_v2-IsDocument}
use calc_u.Shared.CardText.Files.{encode_card_document, decode_card_file}
use calc_u.Shared.CardText.Plain.{decode-encode_card}

-- A cue card that is its lines.
abbrev cues : CueFormat (List (List ℕ))
cues = record {
  fresh = [];
  parse_line = λ l c. c ++ (l ∷ []);
  encode_lines = λ c. c;
  on_magnet_card = λ c. c;
  without_banks = λ c. c;
}

-- Bank 2, a program of 479 steps, protected, with all kinds of bytes.
abbrev byte : ℕ → ℕ
byte =
    upd (upd (upd (upd (upd (upd (λ i. i * 7 % 256) 0 0x16) 1 0x11) 2 0x13) 3 0x10) 244 0x0A) 245
      0x0A

abbrev image : List ℕ
image = slice byte 0 246

byte-lt : (i : ℕ) → byte i < 256
byte-lt i = ground arith

image-IsCardBank : IsCardBank image
unfolding page_byte_of_bank
image-IsCardBank = record {
  sized = length-slice byte 0 246;
  each = λ k. slice-bytes byte 0 246 k byte-lt;
  typed = inr refl;
  paged = (2, omega arith, omega arith, refl);
  protected = inr refl;
  summed = refl;
}

decode-encode_card_example :
    decode_card_file cues
      (encode_card_document cues (two_sides cues (some image) none))
      (text "A.U59")
    ≡ record { card = some (two_sides cues (some image) none); error = [] }
decode-encode_card_example =
    decode-encode_card cues (some image) none (text "A.U59") image-IsCardBank (omega arith)

parse_card_text_v2-IsDocument_example : IsDocument (two_sides cues (some image) none)
parse_card_text_v2-IsDocument_example =
    parse_card_text_v2-IsDocument cues (document_lines cues (two_sides cues (some image) none))
      (two_sides cues (some image) none)
      (parse-document_lines cues (some image) none image-IsCardBank (omega arith))
