-- ===== src/Shared/TextUtil/Utf8.antt =====
-- Shared/TextUtil.hpp: `isValidUtf8`, on texts as lists of bytes.
use calc_u.Base.{
  ℕ, zero, suc, ◌-◌, ◌*◌, ◌/◌, ◌^◌, ◌≤◌, ◌<◌, ◌≡◌, refl, Bool, true, false, ◌&&◌, ◌||◌, not,
  if◌then◌else◌, leb, ltb, ◌==◌, List, [], ◌∷◌, Option, none, some, length, drop, bit_and, bit_or,
  arith,
}

-- The bytes of the sequence that a byte leads, or 0.
abbrev sequence_length : ℕ → ℕ
sequence_length c =
    if ltb c 0x80
    then 1
    else if c / 32 == 0x6
    then 2
    else if c / 16 == 0xE
    then 3
    else if c / 8 == 0x1E
    then 4
    else 0

-- The code point from its first bits and `k` bytes that continue it.
continued : ℕ → List ℕ → ℕ → Option ℕ
continued zero cs cp = some cp
continued (suc k) [] cp = none
continued (suc k) (c ∷ cs) cp =
    let more = continued k cs (bit_or (cp * 64) (bit_and c 0x3F)) in
    if bit_and c 0xC0 == 0x80 then more else none

-- Overlong forms, surrogates and what is out of range.
abbrev is_rejected : ℕ → ℕ → Bool
is_rejected n cp =
    ((n == 2) && ltb cp 0x80)
    || ((n == 3) && ltb cp 0x800)
    || ((n == 4) && (ltb cp 0x10000 || ltb 0x10FFFF cp))
    || (leb 0xD800 cp && leb cp 0xDFFF)

abbrev is_accepted : ℕ → Option ℕ → Bool
is_accepted n none = false
is_accepted n (some cp) = not (is_rejected n cp)

-- The loop on fuel: a round moves by a byte at least.
valid_from : ℕ → List ℕ → Bool
unfolding continued
valid_from zero s = true
valid_from (suc f) [] = true
valid_from (suc f) (c ∷ cs) =
    let n = sequence_length c in
    let rest = valid_from f (drop n (c ∷ cs)) in
    let lead = if n == 1 then c else bit_and c (0x7F / 2 ^ n) in
    if (n == 0) || ltb (length (c ∷ cs)) n
    then false
    else if is_accepted n (continued (n - 1) cs lead)
    then rest
    else false

unfoldable pub is_valid_utf8 : List ℕ → Bool
unfolding valid_from
is_valid_utf8 s = valid_from (length s) s

abbrev pub AreAscii : List ℕ → Type 0
AreAscii [] = 0 ≤ 0
AreAscii (c ∷ cs) = (c < 128) × AreAscii cs

valid_from-ascii : (f : ℕ) (s : List ℕ) → AreAscii s → valid_from f s ≡ true
unfolding valid_from continued
valid_from-ascii zero s h = refl
valid_from-ascii (suc f) [] h = refl
valid_from-ascii (suc f) (c ∷ cs) (l, h) =
    let t : ltb c 0x80 ≡ true = ground (arith, l) in
    let u : leb 0xD800 c ≡ false = ground (arith, l) in
    let v : ltb (suc (length cs)) 1 ≡ false = ground arith in rw (t, u, v) (valid_from-ascii f cs h)

pub is_valid_utf8-ascii : (s : List ℕ) → AreAscii s → is_valid_utf8 s ≡ true
unfolding is_valid_utf8
is_valid_utf8-ascii s h = valid_from-ascii (length s) s h
