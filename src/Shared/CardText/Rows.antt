-- ===== src/Shared/CardText/Rows.antt =====
-- A row of a card's data reads back its eight bytes.
use calc_u.Base.{
  slice_same, ℕ, ◌+◌, ◌*◌, ◌/◌, ◌%◌, ◌<◌, ◌≡◌, refl, ap, sym, ◌∙◌, inl, inr, true, false, ◌==◌,
  List, [], ◌∷◌, ◌++◌, Option, some, ◌>>=◌, length, slice, get_or, bit_and, arith, Bool-cases,
  ==_iff, table,
}
use mathlib.Core.List.{reverse, append-nil}
use calc_u.Shared.TextUtil.{space}
use calc_u.Shared.TextUtil.Laws.{append_assoc}
use calc_u.Shared.TextUtil.Trim.{trim, behind, strip_inline_comment}
use calc_u.Shared.TextUtil.Framing.{
  IsInk, IsPlain, ArePlain, StartsInk, EndsInk, append-ArePlain, append-EndsInk, trim-space,
  strip_inline_comment-framed,
}
use calc_u.Shared.Bcd.{
  encode_register_line, decode_register_line, upper_hex, hex_byte, spaced, parse_register_line_hex,
}
use calc_u.Shared.Bcd.Laws.{AreNibbles, AreBytes, byte_join, decode-encode, parse_lem, low_table}
use calc_u.Shared.CardText.{
  joined_byte, row_bytes, decode_card_row, row_nibbles, spaced_bytes, row_label, row_line,
}

pub spaced-append :
    (bs : List ℕ) (c : ℕ) (out : List ℕ) → spaced (c ∷ out) bs ≡ (c ∷ out) ++ spaced_bytes bs
spaced-append [] c out = sym (append-nil (c ∷ out))
spaced-append (b ∷ bs) c out =
    spaced-append bs c (out ++ (space ∷ hex_byte b))
    ∙ append_assoc (c ∷ out) (space ∷ hex_byte b) (spaced_bytes bs)

pub upper_hex-IsPlain : (d : ℕ) → d < 16 → IsPlain (upper_hex d) × IsInk (upper_hex d)
upper_hex-IsPlain d h = ground arith

pub spaced_bytes-ArePlain : (bs : List ℕ) → AreBytes bs → ArePlain (spaced_bytes bs)
spaced_bytes-ArePlain [] h = omega arith
spaced_bytes-ArePlain (b ∷ bs) (l, h) = (
  (omega arith, omega arith, λ e. absurd (omega (arith, e))),
  (
    (upper_hex-IsPlain (b / 16) (omega (arith, l))).0,
    ((upper_hex-IsPlain (b % 16) (omega arith)).0, spaced_bytes-ArePlain bs h),
  ),
)

pub spaced_bytes-EndsInk :
    (b : ℕ) (bs : List ℕ) → AreBytes (b ∷ bs) → EndsInk (spaced_bytes (b ∷ bs))
spaced_bytes-EndsInk b [] (l, h) = (upper_hex-IsPlain (b % 16) (omega arith)).1
spaced_bytes-EndsInk b (c ∷ cs) (l, h) =
    append-EndsInk (space ∷ hex_byte b) (spaced_bytes (c ∷ cs)) (spaced_bytes-EndsInk c cs h)

-- The bytes behind a row's colon.
pub trim-spaced_bytes :
    (bs : List ℕ) → AreBytes bs → 0 < length bs → trim (spaced_bytes bs) ≡ spaced [] bs
trim-spaced_bytes [] h l = absurd (omega arith)
trim-spaced_bytes (b ∷ bs) h l =
    trim-space (hex_byte b ++ spaced_bytes bs) (spaced_bytes-ArePlain (b ∷ bs) h).1
      (upper_hex-IsPlain (b / 16) (omega (arith, h.0))).1 (spaced_bytes-EndsInk b bs h)
    ∙ sym (spaced-append bs (upper_hex (b / 16)) (upper_hex (b % 16) ∷ []))

behind-row_label : (n : ℕ) (rest : List ℕ) → n < 1000 → behind 58 (row_label n ++ rest) ≡ some rest
unfolding behind
behind-row_label n rest h =
    let a : (48 + n / 100 == 58) ≡ false = ground arith in
    let b : (48 + n / 10 % 10 == 58) ≡ false = ground arith in
    let c : (48 + n % 10 == 58) ≡ false = ground arith in rw (a, b, c) refl

row_nibbles_lem :
    (image : List ℕ) (row k : ℕ)
    → get_or image (4 + row * 8 + k) 0 < 256
    → (row_nibbles image row (2 * k) ≡ get_or image (4 + row * 8 + k) 0 / 16)
      × (row_nibbles image row (2 * k + 1) ≡ get_or image (4 + row * 8 + k) 0 % 16)
row_nibbles_lem image row k h =
    let e : 2 * k / 2 ≡ k = omega arith in
    let o : (2 * k + 1) / 2 ≡ k = omega arith in
    let even : (2 * k % 2 == 0) ≡ true = ground arith in
    let odd : ((2 * k + 1) % 2 == 0) ≡ false = ground arith in
    let b = get_or image (4 + row * 8 + k) 0 in
    let low : bit_and b 0x0F ≡ b % 16 = (==_iff _ _).0 (table 256 _ low_table b h) in
    (rw (e, even) refl, rw (o, odd) low)

-- Every byte of the row is one.
abbrev pub IsRow : List ℕ → ℕ → Type 0
IsRow image row = (k : ℕ) → k < 8 → get_or image (4 + row * 8 + k) 0 < 256

row_nibbles-AreNibbles :
    (image : List ℕ) (row : ℕ) → IsRow image row → AreNibbles (row_nibbles image row)
row_nibbles-AreNibbles image row h i l =
    let b = h (i / 2) (omega (arith, l)) in
    elim (Bool-cases (i % 2 == 0)) [
      | inl even ↦
          let (e, _) = row_nibbles_lem image row (i / 2) b in
          let same : 2 * (i / 2) ≡ i = ground (arith, even) in
          omega (arith, ap (row_nibbles image row) same, e, b)
      | inr odd ↦
          let (_, e) = row_nibbles_lem image row (i / 2) b in
          let same : 2 * (i / 2) + 1 ≡ i = ground (arith, odd) in
          omega (arith, ap (row_nibbles image row) same, e)
    ]

-- The eight bytes of row `row` of a bank.
abbrev pub row_of : List ℕ → ℕ → List ℕ
row_of image row = slice (λ k. get_or image (4 + row * 8 + k) 0) 0 8

joined_byte-row :
    (image : List ℕ) (row k : ℕ)
    → IsRow image row
    → k < 8
    → joined_byte (decode_register_line (encode_register_line (row_nibbles image row))) k
      ≡ get_or image (4 + row * 8 + k) 0
joined_byte-row image row k h l =
    let n = row_nibbles image row in
    let all = row_nibbles-AreNibbles image row h in
    let hi = decode-encode n (2 * k) all (omega (arith, l)) in
    let lo = decode-encode n (2 * k + 1) all (omega (arith, l)) in
    let (a, b) = row_nibbles_lem image row k (h k l) in
    let x = get_or image (4 + row * 8 + k) 0 in
    rw (hi ∙ a, lo ∙ b)
      (byte_join (x / 16) (x % 16) (omega (arith, h k l)) (omega arith)
        ∙ let whole : x / 16 * 16 + x % 16 ≡ x = omega arith in whole)

-- The bytes of a row as the line has them.
abbrev mirrored : List ℕ → ℕ → List ℕ
mirrored image row = reverse (encode_register_line (row_nibbles image row))

mirrored_lem :
    (image : List ℕ) (row : ℕ)
    → AreBytes (mirrored image row)
      × (length (mirrored image row) ≡ 8)
      × (reverse (mirrored image row) ≡ encode_register_line (row_nibbles image row))
unfolding encode_register_line
mirrored_lem image row = (omega arith, refl, refl)

row_bytes-row_line :
    (image : List ℕ) (first row : ℕ)
    → IsRow image row
    → first + row < 1000
    → row_bytes (row_line image first row) ≡ some (row_of image row)
unfolding row_bytes row_line
row_bytes-row_line image first row h l =
    let bs = mirrored image row in
    let (bytes, eight, back) = mirrored_lem image row in
    let last : List ℕ → Option (List ℕ) =
      λ fb. some (slice (joined_byte (decode_register_line (reverse fb))) 0 8) in
    ap (λ (o : Option (List ℕ)). o >>= λ rest. parse_register_line_hex (trim rest) >>= last)
      (behind-row_label (first + row) (spaced_bytes bs) l)
    ∙ ap (λ t. parse_register_line_hex t >>= last)
        (trim-spaced_bytes bs bytes (omega (arith, eight)))
    ∙ ap (λ (o : Option (List ℕ)). o >>= last) (parse_lem bs bytes eight)
    ∙ ap (λ r. some (slice (joined_byte (decode_register_line r)) 0 8)) back
    ∙ ap some (
        slice_same
          (joined_byte (decode_register_line (encode_register_line (row_nibbles image row))))
          (λ k. get_or image (4 + row * 8 + k) 0) 0 8
          (λ k m. joined_byte-row image row k h (omega (arith, m))))

pub row_line-letter :
    (image : List ℕ) (first row : ℕ) → (cs : List ℕ) × (row_line image first row ≡ 82 ∷ cs)
unfolding row_line
row_line-letter image first row = (_, refl)

-- A row's line is plain, from its letter to its last digit.
pub row_line-frame :
    (image : List ℕ) (first row : ℕ)
    → first + row < 1000
    → ArePlain (row_line image first row)
      × StartsInk (row_line image first row)
      × EndsInk (row_line image first row)
unfolding row_line
row_line-frame image first row l =
    let bs = mirrored image row in
    let (bytes, _, _) = mirrored_lem image row in
    let n = first + row in
    (
      append-ArePlain (row_label n) (spaced_bytes bs)
          (
            ground arith,
            (ground arith, (ground arith, (ground arith, (ground arith, ground arith)))),
          )
          (spaced_bytes-ArePlain bs bytes),
      omega arith,
      append-EndsInk (row_label n) (spaced_bytes bs) (ends bs bytes (omega arith)),
    )
  where
    ends : (bs : List ℕ) → AreBytes bs → 0 < length bs → EndsInk (spaced_bytes bs)
    ends [] h l = absurd (omega arith)
    ends (b ∷ bs) h l = spaced_bytes-EndsInk b bs h

-- The line that a row of a bank is written as reads back the row's eight bytes.
pub decode_card_row-row_line :
    (image : List ℕ) (first row : ℕ)
    → IsRow image row
    → first + row < 1000
    → decode_card_row (strip_inline_comment (row_line image first row)) ≡ some (row_of image row)
unfolding decode_card_row
decode_card_row-row_line image first row h l =
    let (p, a, z) = row_line-frame image first row l in
    ap decode_card_row (strip_inline_comment-framed (row_line image first row) p a z)
    ∙ unfold row_line in row_bytes-row_line image first row h l
