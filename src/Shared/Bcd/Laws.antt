-- ===== src/Shared/Bcd/Laws.antt =====
-- A register's line reads back the register.
use calc_u.Base.{
  ℕ, zero, suc, ◌+◌, ◌-◌, ◌*◌, ◌/◌, ◌%◌, ◌≤◌, ◌<◌, ◌≡◌, ◌≢◌, refl, ap, sym, ◌∙◌, inl, inr, Bool,
  true, false, if◌then◌else◌, ◌==◌, List, [], ◌∷◌, ◌++◌, Option, none, some, length, slice, get_or,
  bit_or, bit_and, u8, arith, Bool-cases, all_below, table, ==_iff, length-slice,
}
use calc_u.Core.Alu.{Nibbles}
use calc_u.Shared.TextUtil.{space, split_words, parse_hex, hex_value, hex_digit}
use calc_u.Shared.TextUtil.Laws.{join_words, AreWords, split_words-join_words, append_assoc}
use calc_u.Shared.Bcd.{
  line_byte, encode_register_line, decode_register_line, upper_hex, hex_byte, spaced,
  register_line_hex, parse_byte, parse_bytes, parse_register_line_hex,
}

pub get_or-slice {ℓ} :
    {A : Type ℓ} (f : ℕ → A) (lo n k : ℕ) (d : A) → k < n → get_or (slice f lo n) k d ≡ f (lo + k)
get_or-slice f lo zero k d h = absurd (omega arith)
get_or-slice f lo (suc n) zero d h = ap f (omega arith)
get_or-slice f lo (suc n) (suc k) d h =
    get_or-slice f (lo + 1) n k d (omega arith) ∙ ap f (omega arith)

join_table : all_below 256 (λ x. u8 (bit_or (x / 16 * 16) (x % 16)) == x) ≡ true
unfolding all_below
join_table = refl

pub low_table : all_below 256 (λ x. bit_and x 0x0F == x % 16) ≡ true
unfolding all_below
low_table = refl

pub byte_join : (a b : ℕ) → a < 16 → b < 16 → u8 (bit_or (a * 16) b) ≡ a * 16 + b
byte_join a b h k =
    let x = a * 16 + b in
    let p : x / 16 ≡ a = omega arith in
    let q : x % 16 ≡ b = omega arith in
    let t : u8 (bit_or (x / 16 * 16) (x % 16)) ≡ x =
      (==_iff _ _).0 (table 256 _ join_table x (omega arith)) in
    ap (λ y. u8 (bit_or (y * 16) b)) (sym p) ∙ ap (λ y. u8 (bit_or (x / 16 * 16) y)) (sym q) ∙ t

abbrev pub AreNibbles : Nibbles → Type 0
AreNibbles n = (i : ℕ) → i < 16 → n i < 16

-- The byte of a line in which nibble `i` stands.
decode_byte :
    (n : Nibbles) (i : ℕ)
    → AreNibbles n
    → i < 16
    → let b = n (i / 2 * 2) * 16 + n (i / 2 * 2 + 1) in
      (get_or (encode_register_line n) ((15 - i) / 2) 0 ≡ b) × (b < 256)
unfolding encode_register_line
decode_byte n i h k =
    let j : 14 - 2 * (0 + (15 - i) / 2) ≡ i / 2 * 2 = omega arith in
    let a = h (i / 2 * 2) (omega arith) in
    let b = h (i / 2 * 2 + 1) (omega arith) in
    (
      get_or-slice (line_byte n) 0 8 ((15 - i) / 2) 0 (omega arith)
          ∙ ap (λ m. u8 (bit_or (n m * 16) (n (m + 1)))) j
          ∙ byte_join (n (i / 2 * 2)) (n (i / 2 * 2 + 1)) a b,
      omega (arith, a, b),
    )

-- The bytes of a line give back the sixteen nibbles of a register.
pub decode-encode :
    (n : Nibbles) (i : ℕ)
    → AreNibbles n
    → i < 16
    → decode_register_line (encode_register_line n) i ≡ n i
unfolding decode_register_line
decode-encode n i h k =
    let (e, lt) = decode_byte n i h k in
    let hi = h (i / 2 * 2) (omega arith) in
    let lo = h (i / 2 * 2 + 1) (omega arith) in
    elim (Bool-cases (i % 2 == 0)) [
      | inl even ↦
          let j : i / 2 * 2 ≡ i = ground (arith, even) in rw (e, even) (omega (arith, ap n j, lo))
      | inr odd ↦
          let j : i / 2 * 2 + 1 ≡ i = ground (arith, odd) in
          let x = n (i / 2 * 2) * 16 + n (i / 2 * 2 + 1) in
          let low : bit_and x 0x0F ≡ x % 16 = (==_iff _ _).0 (table 256 _ low_table x lt) in
          rw (e, odd) (low ∙ omega (arith, ap n j, lo))
    ]

-- Whether a parser gave this number.
abbrev gives : Option ℕ → ℕ → Bool
gives none b = false
gives (some v) b = v == b

gives-some : (o : Option ℕ) (b : ℕ) → gives o b ≡ true → o ≡ some b
gives-some none b h = ground (arith, h)
gives-some (some v) b h = ap some ((==_iff v b).0 h)

byte_table : all_below 256 (λ b. gives (parse_byte (hex_byte b)) b) ≡ true
unfolding all_below parse_byte parse_hex hex_value hex_digit
byte_table = refl

parse_byte-hex_byte : (b : ℕ) → b < 256 → parse_byte (hex_byte b) ≡ some b
parse_byte-hex_byte b h = gives-some (parse_byte (hex_byte b)) b (table 256 _ byte_table b h)

abbrev hex_words : List ℕ → List (List ℕ)
hex_words [] = []
hex_words (b ∷ bs) = hex_byte b ∷ hex_words bs

abbrev pub AreBytes : List ℕ → Type 0
AreBytes [] = 0 ≤ 0
AreBytes (b ∷ bs) = (b < 256) × AreBytes bs

upper_hex-visible : (d : ℕ) → upper_hex d ≢ space
upper_hex-visible d h = ground (arith, h)

hex_words-AreWords : (bs : List ℕ) → AreWords (hex_words bs)
hex_words-AreWords [] = omega arith
hex_words-AreWords (b ∷ bs) = (
  omega arith,
  (upper_hex-visible (b / 16), (upper_hex-visible (b % 16), omega arith)),
  hex_words-AreWords bs,
)

join_glue :
    (w v : List ℕ) (ws : List (List ℕ))
    → join_words ((w ++ (space ∷ v)) ∷ ws) ≡ join_words (w ∷ v ∷ ws)
join_glue w v [] = refl
join_glue w v (x ∷ ws) = append_assoc w (space ∷ v) (space ∷ join_words (x ∷ ws))

spaced-more :
    (bs : List ℕ) (c : ℕ) (out : List ℕ)
    → spaced (c ∷ out) bs ≡ join_words ((c ∷ out) ∷ hex_words bs)
spaced-more [] c out = refl
spaced-more (b ∷ bs) c out =
    spaced-more bs c (out ++ (space ∷ hex_byte b)) ∙ join_glue (c ∷ out) (hex_byte b) (hex_words bs)

spaced_lem : (bs : List ℕ) → spaced [] bs ≡ join_words (hex_words bs)
spaced_lem [] = refl
spaced_lem (b ∷ bs) = spaced-more bs (upper_hex (b / 16)) (upper_hex (b % 16) ∷ [])

parse_bytes-hex_words : (bs : List ℕ) → AreBytes bs → parse_bytes (hex_words bs) ≡ some bs
unfolding parse_bytes
parse_bytes-hex_words [] h = refl
parse_bytes-hex_words (b ∷ bs) (l, h) =
    rw (parse_byte-hex_byte b l, parse_bytes-hex_words bs h) refl

length-hex_words : (bs : List ℕ) → length (hex_words bs) ≡ length bs
length-hex_words [] = refl
length-hex_words (b ∷ bs) = omega (arith, length-hex_words bs)

slice-AreBytes : (n : Nibbles) (lo k : ℕ) → AreBytes (slice (line_byte n) lo k)
slice-AreBytes n lo zero = omega arith
slice-AreBytes n lo (suc k) = (omega arith, slice-AreBytes n (lo + 1) k)

pub parse_lem :
    (bs : List ℕ) → AreBytes bs → length bs ≡ 8 → parse_register_line_hex (spaced [] bs) ≡ some bs
unfolding parse_register_line_hex
parse_lem bs h k =
    let tokens : split_words (spaced [] bs) ≡ hex_words bs =
      ap split_words (spaced_lem bs)
      ∙ split_words-join_words (hex_words bs) (hex_words-AreWords bs) in
    let eight : (length (hex_words bs) == 8) ≡ true = ground (arith, length-hex_words bs, k) in
    ap (λ t. if length t == 8 then parse_bytes t else none) tokens
    ∙ rw eight (parse_bytes-hex_words bs h)

pub line-AreBytes : (n : Nibbles) → AreBytes (encode_register_line n)
unfolding encode_register_line
line-AreBytes n = slice-AreBytes n 0 8

pub line-length : (n : Nibbles) → length (encode_register_line n) ≡ 8
unfolding encode_register_line
line-length n = length-slice (line_byte n) 0 8

-- The line of text that a register is written as parses, and gives back its sixteen nibbles.
pub parse-hex :
    (n : Nibbles)
    → AreNibbles n
    → (bytes : List ℕ) × (parse_register_line_hex (register_line_hex n) ≡ some bytes)
      × (length bytes ≡ 8)
      × ((i : ℕ) → i < 16 → decode_register_line bytes i ≡ n i)
unfolding register_line_hex
parse-hex n h = (
  encode_register_line n,
  parse_lem (encode_register_line n) (line-AreBytes n) (line-length n),
  line-length n,
  λ i k. decode-encode n i h k,
)
