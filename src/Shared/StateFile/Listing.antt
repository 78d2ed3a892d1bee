-- ===== src/Shared/StateFile/Listing.antt =====
-- A program as the lines of a PROGRAM section list it: what the notation means, apart from the
-- parser, and that `parseProgLine` reads it so.
pub mod Parse
pub mod Laws
use calc_u.Base.{
  ℕ, zero, suc, ◌+◌, ◌*◌, ◌/◌, ◌%◌, ◌≤◌, ◌<◌, ◌≡◌, refl, ap, ◌∙◌, Bool, true, false, map_some, leb,
  ◌==◌, ==_iff, List, [], ◌∷◌, ◌++◌, Option, none, some, length, drop, ℤ, pos, negsuc, all_below,
  table, arith,
}
use calc_u.Core.Cpu.Printer.{text}
use calc_u.Shared.TextUtil.{parse_dec, dec_value}
use calc_u.Shared.TextUtil.Trim.{text_eq}
use calc_u.Shared.StateFile.Lines.{
  white_from, split_whitespace, char_count, up_to, keycode, keycodes, step_prefix, prog_tokens,
  parse_prog_line,
}
use calc_u.Shared.StateFile.Tokens.{
  IsDigit, white_from-two, white_from-last, white_from-three, drop-add,
}

-- A line of a listing: a keycode at an address with a label, keycodes that go on from the step
-- before, or a gap.
pub data Line : Type 0 where
  labelled : ℕ → ℕ → List ℕ → Line
  going_on : ℕ → List ℕ → Line
  gap : Line

abbrev pub two_digits : ℕ → List ℕ
two_digits k = (48 + k / 10) ∷ (48 + k % 10) ∷ []

abbrev pub three_digits : ℕ → List ℕ
three_digits a = (48 + a / 100) ∷ (48 + a / 10 % 10) ∷ (48 + a % 10) ∷ []

-- Keycodes of two digits, a blank between them.
abbrev pub blank_codes : ℕ → List ℕ → List ℕ
blank_codes k [] = two_digits k
blank_codes k (k' ∷ ks) = two_digits k ++ (32 ∷ blank_codes k' ks)

-- "010 91 R/S", "76 11 05" and "...".
abbrev pub print_line : Line → List ℕ
print_line (labelled a k label) = three_digits a ++ (32 ∷ (two_digits k ++ (32 ∷ label)))
print_line (going_on k ks) = blank_codes k ks
print_line gap = 46 ∷ 46 ∷ 46 ∷ []

abbrev pub steps_from : ℕ → List ℕ → List (ℕ × ℕ)
steps_from step [] = []
steps_from step (k ∷ ks) = (step, k) ∷ steps_from (step + 1) ks

-- The step behind a line that starts at the given one.
abbrev pub step_behind : ℕ → Line → ℕ
step_behind step (labelled a k label) = a + 1
step_behind step (going_on k ks) = step + 1 + length ks
step_behind step gap = step

abbrev pub line_steps : ℕ → Line → List (ℕ × ℕ)
line_steps step (labelled a k label) = (a, k) ∷ []
line_steps step (going_on k ks) = steps_from step (k ∷ ks)
line_steps step gap = []

-- The steps that a listing gives, with their keycodes.
abbrev pub meaning : ℕ → List Line → List (ℕ × ℕ)
meaning step [] = []
meaning step (l ∷ ls) = line_steps step l ++ meaning (step_behind step l) ls

abbrev pub print_lines : List Line → List (List ℕ)
print_lines [] = []
print_lines (l ∷ ls) = print_line l ∷ print_lines ls

abbrev pub AreBelow : ℕ → List ℕ → Type 0
AreBelow n [] = 0 ≤ 0
AreBelow n (k ∷ ks) = (k < n) × AreBelow n ks

-- The numbers fit their digits, and an address is at most `top`.
abbrev pub IsPrintable : ℕ → Line → Type 0
IsPrintable top (labelled a k label) = (a ≤ top) × (a < 1000) × (k < 100)
IsPrintable top (going_on k ks) = AreBelow 100 (k ∷ ks)
IsPrintable top gap = 0 ≤ 0

abbrev pub ArePrintable : ℕ → List Line → Type 0
ArePrintable top [] = 0 ≤ 0
ArePrintable top (l ∷ ls) = IsPrintable top l × ArePrintable top ls

abbrev is_code : Option ℕ → ℕ → Bool
is_code none n = false
is_code (some m) n = m == n

is_code-some : (o : Option ℕ) (n : ℕ) → is_code o n ≡ true → o ≡ some n
is_code-some none n h = cc
is_code-some (some m) n h = ap some ((==_iff m n).0 h)

keycode_table : all_below 100 (λ k. is_code (keycode (two_digits k)) k) ≡ true
unfolding all_below keycode char_count parse_dec dec_value
keycode_table = refl

pub keycode-two_digits : (k : ℕ) → k < 100 → keycode (two_digits k) ≡ some k
keycode-two_digits k h = is_code-some _ k (table 100 _ keycode_table k h)

two_digits_table : all_below 100 (λ k. char_count (two_digits k) == 2) ≡ true
unfolding all_below char_count
two_digits_table = refl

pub step_prefix-two_digits : (top k : ℕ) → k < 100 → step_prefix top (two_digits k) ≡ none
unfolding step_prefix
step_prefix-two_digits top k h =
    rw ((==_iff (char_count (two_digits k)) 2).0 (table 100 _ two_digits_table k h)) refl

three_digits_table : all_below 1000 (λ a. char_count (three_digits a) == 3) ≡ true
unfolding all_below char_count
three_digits_table = refl

address_of : Option ℤ → Option ℕ
address_of none = none
address_of (some (negsuc k)) = none
address_of (some (pos n)) = some n

address_table : all_below 1000 (λ a. is_code (address_of (parse_dec (three_digits a))) a) ≡ true
unfolding all_below parse_dec dec_value address_of
address_table = refl

parse-address : (o : Option ℤ) (n : ℕ) → address_of o ≡ some n → o ≡ some (pos n)
unfolding address_of
parse-address none n h = cc
parse-address (some (negsuc k)) n h = cc
parse-address (some (pos m)) n h = ap (map_some pos) h

pub step_prefix-three_digits :
    (top a : ℕ) → a ≤ top → a < 1000 → step_prefix top (three_digits a) ≡ some a
unfolding step_prefix
step_prefix-three_digits top a h k =
    let number =
      parse-address (parse_dec (three_digits a)) a
        (is_code-some _ a (table 1000 _ address_table a k)) in
    rw ((==_iff (char_count (three_digits a)) 3).0 (table 1000 _ three_digits_table a k), number)
      (ground (arith, h))
