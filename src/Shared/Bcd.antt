-- ===== src/Shared/Bcd.antt =====
-- Shared/Bcd.cpp: a register as a line of eight hexadecimal bytes. What goes through a `double`
-- (`encodeBcd`) is left out.
pub mod Laws
use calc_u.Base.{
  ℕ, zero, suc, ◌+◌, ◌-◌, ◌*◌, ◌/◌, ◌%◌, Bool, true, false, if◌then◌else◌, leb, ltb, ◌==◌, List, [],
  ◌∷◌, ◌++◌, Option, none, some, length, slice, get_or, bit_or, u8, shr, ◌>>=◌, map_some, bit_and,
}
use calc_u.Core.Alu.{Nibbles}
use calc_u.Shared.TextUtil.{space, split_words, parse_hex}

-- Byte `k` of a line: the most significant nibbles of the mantissa come last but one, and so on.
abbrev pub line_byte : Nibbles → ℕ → ℕ
line_byte n k = let i = 14 - 2 * k in u8 (bit_or (n i * 16) (n (i + 1)))

unfoldable pub encode_register_line : Nibbles → List ℕ
encode_register_line n = slice (line_byte n) 0 8

unfoldable pub decode_register_line : List ℕ → Nibbles
decode_register_line bytes i =
    let b = get_or bytes ((15 - i) / 2) 0 in if i % 2 == 0 then shr b 4 else bit_and b 0x0F

abbrev pub upper_hex : ℕ → ℕ
upper_hex d = if ltb d 10 then 48 + d else 55 + d

-- `%02X`
abbrev pub hex_byte : ℕ → List ℕ
hex_byte b = upper_hex (b / 16) ∷ upper_hex (b % 16) ∷ []

-- A space before each byte but the first.
abbrev pub spaced : List ℕ → List ℕ → List ℕ
spaced out [] = out
spaced [] (b ∷ bs) = spaced (hex_byte b) bs
spaced (c ∷ out) (b ∷ bs) = spaced ((c ∷ out) ++ (space ∷ hex_byte b)) bs

unfoldable pub register_line_hex : Nibbles → List ℕ
unfolding encode_register_line
register_line_hex n = spaced [] (encode_register_line n)

unfoldable pub parse_byte : List ℕ → Option ℕ
unfolding parse_hex
parse_byte t = parse_hex t >>= (λ v. if leb v 0xFF then some v else none)

unfoldable pub parse_bytes : List (List ℕ) → Option (List ℕ)
unfolding parse_byte
parse_bytes [] = some []
parse_bytes (t ∷ ts) = parse_byte t >>= (λ v. map_some (λ vs. v ∷ vs) (parse_bytes ts))

unfoldable pub parse_register_line_hex : List ℕ → Option (List ℕ)
unfolding split_words parse_bytes
parse_register_line_hex s =
    let tokens = split_words s in if length tokens == 8 then parse_bytes tokens else none
