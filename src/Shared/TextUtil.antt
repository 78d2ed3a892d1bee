-- ===== src/Shared/TextUtil.antt =====
-- Shared/TextUtil.hpp: the string helpers of the parsers, on texts as lists of character codes. What
-- reads the locale (`parseDouble`) and the Unicode spaces is left out.
pub mod Laws
pub mod Trim
pub mod Framing
pub mod Utf8
use calc_u.Base.{
  ℕ, zero, suc, ◌+◌, ◌-◌, ◌*◌, Bool, true, false, not, ◌&&◌, ◌||◌, if◌then◌else◌, leb, ltb, ◌==◌,
  List, [], ◌∷◌, ◌++◌, Option, none, some, length, ℤ, pos, negsuc, ◌>>=◌, map_some,
}

abbrev pub space : ℕ
space = 32

-- A piece that is not empty, before the others.
abbrev pub put_word : List ℕ → List (List ℕ) → List (List ℕ)
put_word [] ws = ws
put_word (c ∷ cs) ws = (c ∷ cs) ∷ ws

-- The pieces between single spaces, from a piece that was begun.
abbrev pub words_from : List ℕ → List ℕ → List (List ℕ)
words_from piece [] = put_word piece []
words_from piece (c ∷ cs) =
    let next = words_from [] cs in
    let longer = words_from (piece ++ (c ∷ [])) cs in
    if c == space then put_word piece next else longer

unfoldable pub split_words : List ℕ → List (List ℕ)
split_words s = words_from [] s

-- The pieces between newline characters, empty ones included.
abbrev pub lines_from : List ℕ → List ℕ → List (List ℕ)
lines_from piece [] = piece ∷ []
lines_from piece (c ∷ cs) =
    let next = lines_from [] cs in
    let longer = lines_from (piece ++ (c ∷ [])) cs in
    if c == 10 || c == 13 then piece ∷ next else longer

unfoldable pub split_lines : List ℕ → List (List ℕ)
split_lines s = lines_from [] s

unfoldable pub starts_with : List ℕ → List ℕ → Bool
starts_with s [] = true
starts_with [] (p ∷ ps) = false
starts_with (c ∷ cs) (p ∷ ps) = let rest = starts_with cs ps in if c == p then rest else false

-- `none` is -1.
unfoldable pub hex_digit : ℕ → Option ℕ
hex_digit c =
    if leb 48 c && leb c 57
    then some (c - 48)
    else if leb 97 c && leb c 102
    then some (c - 97 + 10)
    else if leb 65 c && leb c 70
    then some (c - 65 + 10)
    else none

unfoldable pub hex_value : ℕ → List ℕ → Option ℕ
unfolding hex_digit
hex_value v [] = some v
hex_value v (c ∷ cs) = hex_digit c >>= (λ d. hex_value (v * 16 + d) cs)

abbrev drop_plus : List ℕ → List ℕ
drop_plus [] = []
drop_plus (c ∷ cs) = if c == 43 then cs else c ∷ cs

abbrev pub sized : ℕ → List ℕ → Bool
sized limit s = ltb 0 (length s) && leb (length s) limit

unfoldable pub parse_hex : List ℕ → Option ℕ
unfolding hex_value
parse_hex s = let t = drop_plus s in if sized 8 t then hex_value 0 t else none

unfoldable pub dec_value : ℕ → List ℕ → Option ℕ
dec_value v [] = some v
dec_value v (c ∷ cs) =
    let rest = dec_value (v * 10 + (c - 48)) cs in if leb 48 c && leb c 57 then rest else none

abbrev pub signed : Bool → ℕ → ℤ
signed false v = pos v
signed true zero = pos zero
signed true (suc v) = negsuc v

abbrev pub is_minus : List ℕ → Bool
is_minus [] = false
is_minus (c ∷ cs) = c == 45

abbrev pub drop_sign : List ℕ → List ℕ
drop_sign [] = []
drop_sign (c ∷ cs) = if c == 43 || c == 45 then cs else c ∷ cs

unfoldable pub parse_dec : List ℕ → Option ℤ
unfolding dec_value
parse_dec s =
    let t = drop_sign s in
    if sized 18 t then map_some (signed (is_minus s)) (dec_value 0 t) else none
