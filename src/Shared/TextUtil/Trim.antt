-- ===== src/Shared/TextUtil/Trim.antt =====
-- Shared/TextUtil.hpp: white space, comments and the case of letters, on texts as lists of bytes.
-- A text that is cut inside a separator of three bytes, which valid UTF-8 is not, makes `trim` throw
-- where the model drops everything.
use calc_u.Shared.TextUtil.{starts_with}
use calc_u.Base.{
  ℕ, zero, suc, ◌+◌, ◌-◌, ◌%◌, ◌/◌, Bool, true, false, ◌&&◌, ◌||◌, if◌then◌else◌, leb, ltb, ◌==◌,
  List, [], ◌∷◌, ◌++◌, Option, none, some, length, get_or, take, drop,
}

-- The length of the separator that the three bytes begin, or 0.
unfoldable pub space_of : ℕ → ℕ → ℕ → ℕ
space_of c d e =
    if c == 32 || c == 9
    then 1
    else if c == 0xC2 && d == 0xA0
    then 2
    else if c == 0xE1 && d == 0x9A && e == 0x80
    then 3
    else if c == 0xE2 && d == 0x80 && (leb e 0x8A || e == 0xAF)
    then 3
    else if c == 0xE2 && d == 0x81 && e == 0x9F
    then 3
    else if c == 0xE3 && d == 0x80 && e == 0x80
    then 3
    else 0

-- A byte behind the end is 0.
unfoldable pub space_at : List ℕ → ℕ → ℕ
unfolding space_of
space_at s i = space_of (get_or s i 0) (get_or s (i + 1) 0) (get_or s (i + 2) 0)

abbrev pub ends_space : List ℕ → ℕ → ℕ → Bool
ends_space s e len = leb len e && (space_at s (e - len) == len)

-- The length of the separator that ends before byte `e`, or 0.
unfoldable pub space_before : List ℕ → ℕ → ℕ
unfolding space_at
space_before s e =
    if ends_space s e 1
    then 1
    else if ends_space s e 2
    then 2
    else if ends_space s e 3
    then 3
    else 0

-- The two loops of `trim`, on fuel: a round moves by a byte at least.
unfoldable pub trim_left : ℕ → List ℕ → ℕ → ℕ → ℕ
unfolding space_at
trim_left zero s b e = b
trim_left (suc f) s b e =
    let n = space_at s b in
    let rest = trim_left f s (b + n) e in if ltb b e then if n == 0 then b else rest else b

unfoldable pub trim_right : ℕ → List ℕ → ℕ → ℕ → ℕ
unfolding space_before
trim_right zero s b e = e
trim_right (suc f) s b e =
    let n = space_before s e in
    let rest = trim_right f s b (e - n) in if ltb b e then if n == 0 then e else rest else e

unfoldable pub trim : List ℕ → List ℕ
unfolding trim_left trim_right
trim s =
    let n = length s in
    let b = trim_left n s 0 n in let e = trim_right n s b n in take (e - b) (drop b s)

-- The text before the first `c`, and the text behind it if there is one.
unfoldable pub before : ℕ → List ℕ → List ℕ
before c [] = []
before c (x ∷ xs) = let rest = before c xs in if x == c then [] else x ∷ rest

unfoldable pub behind : ℕ → List ℕ → Option (List ℕ)
behind c [] = none
behind c (x ∷ xs) = let rest = behind c xs in if x == c then some xs else rest

unfoldable pub strip_inline_comment : List ℕ → List ℕ
unfolding before trim
strip_inline_comment line = trim (before 35 line)

-- `tolower` and `toupper` of the C locale.
abbrev pub lower : ℕ → ℕ
lower c = if leb 65 c && leb c 90 then c + 32 else c

abbrev pub upper : ℕ → ℕ
upper c = if leb 97 c && leb c 122 then c - 32 else c

unfoldable pub to_lower : List ℕ → List ℕ
to_lower [] = []
to_lower (c ∷ cs) = lower c ∷ to_lower cs

unfoldable pub to_upper : List ℕ → List ℕ
to_upper [] = []
to_upper (c ∷ cs) = upper c ∷ to_upper cs

-- Equality of texts.
unfoldable pub text_eq : List ℕ → List ℕ → Bool
text_eq [] [] = true
text_eq [] (d ∷ ds) = false
text_eq (c ∷ cs) [] = false
text_eq (c ∷ cs) (d ∷ ds) = let rest = text_eq cs ds in if c == d then rest else false

-- The text behind the last `c`, if there is one: `rfind` and `substr`.
unfoldable pub behind_last : ℕ → List ℕ → Option (List ℕ)
behind_last c [] = none
behind_last c (x ∷ xs) = elim (behind_last c xs) [
  | none ↦ if x == c then some xs else none
  | some r ↦ some r
]

abbrev pub starts_hidden : List ℕ → Bool
starts_hidden [] = true
starts_hidden (c ∷ cs) = c == 46

unfoldable pub lower_extension : List ℕ → List ℕ
unfolding behind_last to_lower
lower_extension name =
    if starts_hidden name
    then []
    else elim (behind_last 46 name) [ none ↦ [] | some e ↦ to_lower e ]

-- The decimal digits of a number, on fuel.
unfoldable pub digits : ℕ → ℕ → List ℕ → List ℕ
digits zero n out = out
digits (suc f) n out =
    let more = (48 + n % 10) ∷ out in
    let rest = digits f (n / 10) more in if ltb n 10 then more else rest

-- A number has no more digits than its successor says.
unfoldable pub to_string : ℕ → List ℕ
unfolding digits
to_string n = digits (suc n) n []

-- The pieces between separators, empty ones included, on fuel: a round moves by a byte at least.
unfoldable pub split_from : ℕ → List ℕ → List ℕ → List ℕ → List (List ℕ)
unfolding starts_with
split_from zero sep piece s = piece ∷ []
split_from (suc f) sep piece [] = piece ∷ []
split_from (suc f) sep piece (c ∷ cs) =
    let next = piece ∷ split_from f sep [] (drop (length sep) (c ∷ cs)) in
    let longer = split_from f sep (piece ++ (c ∷ [])) cs in
    if starts_with (c ∷ cs) sep then next else longer

unfoldable pub split_on : List ℕ → List ℕ → List (List ℕ)
unfolding split_from
split_on s sep = split_from (suc (length s)) sep [] s
