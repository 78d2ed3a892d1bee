-- ===== src/Shared/CardText/Plain.antt =====
-- A card file of version 2 is plain text, and its bytes decode to the card that was encoded.
use calc_u.Base.{
  ℕ, zero, suc, ◌+◌, ◌-◌, ◌*◌, ◌/◌, ◌%◌, ◌≤◌, ◌<◌, ◌≡◌, refl, ap, ◌∙◌, Bool, true, false, ◌&&◌, not,
  if◌then◌else◌, leb, ltb, ◌==◌, List, [], ◌∷◌, ◌++◌, Option, none, some, arith, get_or,
}
use calc_u.Core.Cpu.Printer.{text}
use calc_u.Shared.TextUtil.{starts_with}
use calc_u.Shared.TextUtil.Trim.{to_string, digits}
use calc_u.Shared.TextUtil.Framing.{IsPlain, ArePlain, append-ArePlain}
use calc_u.Shared.TextUtil.Utf8.{is_valid_utf8, AreAscii, is_valid_utf8-ascii}
use calc_u.Shared.Bcd.{hex_byte}
use calc_u.Shared.CardFile.{bank_of_page_byte}
use calc_u.Shared.CardText.{
  side_lines, row_lines, data_type_line, protection_line, later_lines, join_lines,
}
use calc_u.Shared.CardText.Reader.{
  CueFormat, CardDocument, document_lines, optional_side_lines, parse_card_text_v2,
}
use calc_u.Shared.CardText.Lines.{
  AreLines, ArePlain-IsOneLine, AreLines-AreOneLine, split_lines-join_lines,
}
use calc_u.Shared.CardText.Rows.{upper_hex-IsPlain, row_line-frame}
use calc_u.Shared.CardText.Headers.{AreCardBanks, IsCardBank, first_register-le}
use calc_u.Shared.CardText.Image.{get_or-default}
use calc_u.Shared.CardText.Files.{encode_card_document, decode_text, decode_card_file}
use calc_u.Shared.CardText.RoundTrip.{two_sides, parse-document_lines}

abbrev are_plain : List ℕ → Bool
are_plain [] = true
are_plain (c ∷ cs) = leb 32 c && (ltb c 127 && (not (c == 35) && are_plain cs))

are_plain_sound : (s : List ℕ) → are_plain s ≡ true → ArePlain s
are_plain_sound [] h = omega arith
are_plain_sound (c ∷ cs) h = let (p, q) = split c (are_plain cs) h in (p, are_plain_sound cs q)
  where
    split :
        (c : ℕ) (b : Bool)
        → (leb 32 c && (ltb c 127 && (not (c == 35) && b))) ≡ true
        → IsPlain c × (b ≡ true)
    split c true h = ((ground (arith, h), ground (arith, h), λ e. ground (arith, h, e)), refl)
    split c false h = absurd (ground (arith, h))

hex_byte-ArePlain : (b : ℕ) → b < 256 → ArePlain (hex_byte b)
hex_byte-ArePlain b h = (
  (upper_hex-IsPlain (b / 16) (omega (arith, h))).0,
  ((upper_hex-IsPlain (b % 16) (omega arith)).0, omega arith),
)

if-ArePlain :
    (b : Bool) (xs ys : List ℕ) → ArePlain xs → ArePlain ys → ArePlain (if b then xs else ys)
if-ArePlain true xs ys p q = p
if-ArePlain false xs ys p q = q

-- A label that is checked by evaluation, before plain text.
labelled : (label rest : List ℕ) → are_plain label ≡ true → ArePlain rest → ArePlain (label ++ rest)
labelled label rest h k = append-ArePlain label rest (are_plain_sound label h) k

digits-ArePlain : (f n : ℕ) (out : List ℕ) → ArePlain out → ArePlain (digits f n out)
unfolding digits
digits-ArePlain zero n out h = h
digits-ArePlain (suc f) n out h =
    let more : ArePlain ((48 + n % 10) ∷ out) =
      ((omega arith, omega arith, λ e. absurd (omega (arith, e))), h) in
    if-ArePlain (ltb n 10) ((48 + n % 10) ∷ out) (digits f (n / 10) ((48 + n % 10) ∷ out)) more
      (digits-ArePlain f (n / 10) ((48 + n % 10) ∷ out) more)

to_string-ArePlain : (n : ℕ) → ArePlain (to_string n)
unfolding to_string
to_string-ArePlain n = digits-ArePlain (suc n) n [] (omega arith)

rows-AreLines :
    (image : List ℕ) (first n row : ℕ)
    → first + row + n ≤ 1000
    → AreLines (row_lines image first n row)
rows-AreLines image first zero row h = omega arith
rows-AreLines image first (suc n) row h = (
  (row_line-frame image first row (omega (arith, h))).0,
  rows-AreLines image first n (row + 1) (omega (arith, h)),
)

append-AreLines : (ks ls : List (List ℕ)) → AreLines ks → AreLines ls → AreLines (ks ++ ls)
append-AreLines [] ls h k = k
append-AreLines (l ∷ ks) ls (p, h) k = (p, append-AreLines ks ls h k)

type_line-ArePlain : (b : ℕ) → ArePlain (data_type_line b)
type_line-ArePlain b =
    labelled (text "DataType: ") (if b == 0x11 then text "program" else text "data") refl (
      if-ArePlain (b == 0x11) (text "program") (text "data") (are_plain_sound (text "program") refl)
        (are_plain_sound (text "data") refl))

protection_line-ArePlain : (b : ℕ) → ArePlain (protection_line b)
protection_line-ArePlain b =
    labelled (text "Protection: ") (if b == 0x10 then text "yes" else text "no") refl (
      if-ArePlain (b == 0x10) (text "yes") (text "no") (are_plain_sound (text "yes") refl)
        (are_plain_sound (text "no") refl))

side_lines-AreLines : (image : List ℕ) → IsCardBank image → AreLines (side_lines image)
unfolding side_lines
side_lines-AreLines image v =
    let b2 = get_or-default image 2 0x10 (omega (arith, v.sized)) in
    let n = bank_of_page_byte (get_or image 2 0x10) in
    let low : (n - 1) * 30 + 0 + 30 ≤ 1000 =
      omega (arith, ap bank_of_page_byte b2, first_register-le (get_or image 2 0) v.paged) in
    (
      are_plain_sound (text "HEADER:") refl,
      (
        labelled (text "Partition: ") (hex_byte (get_or image 0 0)) refl
            (hex_byte-ArePlain (get_or image 0 0) (v.each 0)),
        (
          type_line-ArePlain (get_or image 1 0x11),
          (
            labelled (text "Bank: ") (to_string n) refl (to_string-ArePlain n),
            (
              protection_line-ArePlain (get_or image 3 0),
              (
                labelled (text "Checksum: ") (hex_byte (get_or image 244 0)) refl
                    (hex_byte-ArePlain (get_or image 244 0) (v.each 244)),
                (
                  omega arith,
                  (
                    are_plain_sound (text "DATA:") refl,
                    rows-AreLines image ((n - 1) * 30) 30 0 low,
                  ),
                ),
              ),
            ),
          ),
        ),
      ),
    )

end-AreLines : AreLines ([] ∷ text "END-CARD" ∷ [])
end-AreLines = (omega arith, (are_plain_sound (text "END-CARD") refl, omega arith))

ArePlain-AreAscii : (s rest : List ℕ) → ArePlain s → AreAscii rest → AreAscii (s ++ rest)
ArePlain-AreAscii [] rest h k = k
ArePlain-AreAscii (c ∷ cs) rest ((_, p, _), h) k = (omega (arith, p), ArePlain-AreAscii cs rest h k)

later-AreAscii : (ls : List (List ℕ)) → AreLines ls → AreAscii (later_lines ls)
later-AreAscii [] h = omega arith
later-AreAscii (l ∷ ls) (p, h) =
    (omega arith, ArePlain-AreAscii l (later_lines ls) p (later-AreAscii ls h))

module _ {ℓ} {Cue : Type ℓ} (cues : CueFormat Cue) where
  side-AreLines :
      (n : ℕ) (a : Option (List ℕ)) → AreCardBanks a → AreLines (optional_side_lines cues n a)
  side-AreLines n none v = omega arith
  side-AreLines n (some image) v = (
    omega arith,
    (
      labelled (text "SIDE: ") (to_string n) refl (to_string-ArePlain n),
      side_lines-AreLines image v,
    ),
  )

  -- All lines but the first.
  abbrev body : Option (List ℕ) → Option (List ℕ) → List (List ℕ)
  body a b =
      optional_side_lines cues 1 a ++ (optional_side_lines cues 2 b ++ ([] ∷ text "END-CARD" ∷ []))

  body-AreLines : (a b : Option (List ℕ)) → AreCardBanks a → AreCardBanks b → AreLines (body a b)
  body-AreLines a b v w = append-AreLines (optional_side_lines cues 1 a) _ (side-AreLines 1 a v) (
      append-AreLines (optional_side_lines cues 2 b) ([] ∷ text "END-CARD" ∷ [])
        (side-AreLines 2 b w) end-AreLines)

  abbrev first_line : List ℕ
  first_line = text "Calc-U-59 Card 2.0"

  encoded_lem :
      (a b : Option (List ℕ))
      → encode_card_document cues (two_sides cues a b) ≡ join_lines (first_line ∷ body a b)
  unfolding encode_card_document document_lines
  encoded_lem a b = refl

  decode_text_lem :
      (a b : Option (List ℕ))
      → AreCardBanks a
      → AreCardBanks b
      → decode_text cues (join_lines (first_line ∷ body a b)) ≡ some (two_sides cues a b)
  unfolding decode_text starts_with
  decode_text_lem a b v w =
      ap (parse_card_text_v2 cues) (
        split_lines-join_lines first_line (body a b)
          (ArePlain-IsOneLine first_line (are_plain_sound first_line refl))
          (AreLines-AreOneLine (body a b) (body-AreLines a b v w)))
      ∙ unfold document_lines in parse-document_lines cues a b v w

  decode_lem :
      (raw name : List ℕ) (doc : CardDocument Cue)
      → starts_with raw (text "Calc-U-59 Card ") ≡ true
      → is_valid_utf8 raw ≡ true
      → decode_text cues raw ≡ some doc
      → decode_card_file cues raw name ≡ record { card = some doc; error = [] }
  unfolding decode_card_file
  decode_lem raw name doc h k e = rw (h, k, e) refl

  magic_lem :
      (a b : Option (List ℕ))
      → starts_with (join_lines (first_line ∷ body a b)) (text "Calc-U-59 Card ") ≡ true
  unfolding starts_with
  magic_lem a b = refl

  -- The bytes that a card of version 2 without a cue card is encoded as decode, without an error,
  -- to that card: whether none, one or both of its sides are written, if each is a card bank.
  pub decode-encode_card :
      (a b : Option (List ℕ)) (name : List ℕ)
      → AreCardBanks a
      → AreCardBanks b
      → decode_card_file cues (encode_card_document cues (two_sides cues a b)) name
        ≡ record { card = some (two_sides cues a b); error = [] }
  decode-encode_card a b name v w =
      let ascii =
        ArePlain-AreAscii first_line (later_lines (body a b)) (are_plain_sound first_line refl)
          (later-AreAscii (body a b) (body-AreLines a b v w)) in
      ap (λ raw. decode_card_file cues raw name) (encoded_lem a b)
      ∙ decode_lem (join_lines (first_line ∷ body a b)) name (two_sides cues a b) (magic_lem a b)
          (is_valid_utf8-ascii (join_lines (first_line ∷ body a b)) ascii) (decode_text_lem a b v w)
