-- ===== src/Shared/StateFile/Lines.antt =====
-- Shared/StateFile.cpp: the lines of a state file, each by itself: program lines, partitions, names.
use calc_u.Base.{
  ℕ, zero, suc, ◌+◌, ◌-◌, Bool, ◌&&◌, ◌||◌, if◌then◌else◌, leb, ltb, ◌==◌, List, [], ◌∷◌, ◌++◌,
  Option, none, some, map_some, length, take, drop, ℤ, pos, negsuc, bit_and,
}
use calc_u.Core.Cpu.Printer.{text}
use calc_u.Shared.Model.{Model, ti59, ti58, ti58c}
use calc_u.Shared.TextUtil.{starts_with, split_lines, parse_dec}
use calc_u.Shared.TextUtil.Trim.{
  space_at, trim, before, strip_inline_comment, to_lower, to_upper, text_eq, lower_extension,
}

-- The pieces between white space, on fuel: a round moves by a byte at least.
unfoldable pub white_from : ℕ → List ℕ → ℕ → ℕ → List (List ℕ)
unfolding space_at
white_from zero s start i = []
white_from (suc f) s start i =
    let n = space_at s i in
    let piece = take (i - start) (drop start s) in
    let next = white_from f s (i + n) (i + n) in
    let longer = white_from f s start (i + 1) in
    let last = if ltb start (length s) then drop start s ∷ [] else [] in
    if ltb i (length s)
    then if n == 0 then longer else if ltb start i then piece ∷ next else next
    else last

unfoldable pub split_whitespace : List ℕ → List (List ℕ)
unfolding white_from
split_whitespace s = white_from (suc (length s)) s 0 0

-- The bytes that continue no UTF-8 sequence.
unfoldable pub char_count : List ℕ → ℕ
char_count [] = 0
char_count (c ∷ cs) = (if bit_and c 0xC0 == 0x80 then 0 else 1) + char_count cs

unfoldable pub is_on : List ℕ → Bool
unfolding to_lower trim text_eq
is_on value =
    let v = to_lower (trim value) in
    text_eq v (text "on") || text_eq v (text "true") || text_eq v (text "1")

-- A number from 0 to `top`.
abbrev pub up_to : ℕ → Option ℤ → Option ℕ
up_to top none = none
up_to top (some (negsuc k)) = none
up_to top (some (pos n)) = if leb n top then some n else none

-- A keycode of one or two characters.
unfoldable pub keycode : List ℕ → Option ℕ
unfolding char_count parse_dec
keycode t = if leb (char_count t) 2 then up_to 99 (parse_dec t) else none

unfoldable pub keycodes : List (List ℕ) → List ℕ
unfolding keycode
keycodes [] = []
keycodes (t ∷ ts) = elim (keycode t) [ none ↦ keycodes ts | some k ↦ k ∷ keycodes ts ]

-- The step address that a prefix of three or more characters sets.
unfoldable pub step_prefix : ℕ → List ℕ → Option ℕ
unfolding char_count parse_dec
step_prefix top t = if leb 3 (char_count t) then up_to top (parse_dec t) else none

-- Behind a prefix stands one keycode, and a label.
abbrev pub first_keycode : List (List ℕ) → List ℕ
first_keycode [] = []
first_keycode (t ∷ ts) = keycodes (t ∷ [])

abbrev pub prog_tokens : ℕ → List (List ℕ) → Option ℕ × List ℕ
prog_tokens top [] = (none, [])
prog_tokens top (t ∷ ts) = elim (step_prefix top t) [
  | some start ↦ (some start, first_keycode ts)
  | none ↦ (none, keycodes (t ∷ ts))
]

-- The step address, if the line sets one, and its keycodes.
unfoldable pub parse_prog_line : ℕ → List ℕ → Option ℕ × List ℕ
unfolding split_whitespace step_prefix keycodes
parse_prog_line top line = prog_tokens top (split_whitespace line)

abbrev pub put_codes : ℕ → List ℕ → List (ℕ × ℕ) → ℕ × List (ℕ × ℕ)
put_codes step [] out = (step, out)
put_codes step (k ∷ ks) out = put_codes (step + 1) ks (out ++ ((step, k) ∷ []))

abbrev pub start_of : Option ℕ → ℕ → ℕ
start_of none step = step
start_of (some start) step = start

-- A line of a PROGRAM section, from the current step on; dots mark a gap.
unfoldable pub program_line : ℕ → List ℕ → ℕ × List (ℕ × ℕ) → ℕ × List (ℕ × ℕ)
unfolding text_eq parse_prog_line
program_line top line (step, out) =
    let (start, codes) = parse_prog_line top line in
    if text_eq line (text "...") then (step, out) else put_codes (start_of start step) codes out

unfoldable pub program_lines : ℕ → List (List ℕ) → ℕ × List (ℕ × ℕ) → ℕ × List (ℕ × ℕ)
unfolding program_line
program_lines top [] st = st
program_lines top (l ∷ ls) st = program_lines top ls (program_line top l st)

-- The least multiple of 80 from `b` on that has `steps`, of `n`; 960 if there is none.
unfoldable pub rounded : ℕ → ℕ → ℕ → ℕ
rounded zero b steps = 960
rounded (suc n) b steps = let more = rounded n (b + 80) steps in if leb steps b then b else more

-- One more than the number; a negative one has no steps.
abbrev pub steps_of : ℤ → ℕ
steps_of (pos n) = n + 1
steps_of (negsuc k) = 0

-- A PARTITION value's last step.
unfoldable pub parse_partition : List ℕ → Option ℕ
unfolding before trim parse_dec rounded
parse_partition rest =
    map_some (λ n. rounded 12 80 (steps_of n) - 1) (parse_dec (trim (before 46 rest)))

unfoldable pub is_memory_card_name : List ℕ → Bool
unfolding to_lower text_eq
is_memory_card_name name = leb 4 (length name) && text_eq (to_lower (take 4 name)) (text "mem:")

abbrev pub memory_card_key : List ℕ → List ℕ
memory_card_key name = drop 4 name

unfoldable pub model_from_name : List ℕ → Option Model
unfolding to_upper trim text_eq
model_from_name name =
    let v = to_upper (trim name) in
    if text_eq v (text "TI-59")
    then some ti59
    else if text_eq v (text "TI-58")
    then some ti58
    else if text_eq v (text "TI-58C")
    then some ti58c
    else none

abbrev value_or : Model → Option Model → Model
value_or current none = current
value_or current (some m) = m

abbrev model_lines : Model → List (List ℕ) → Model → Model
model_lines current [] model = model
model_lines current (raw ∷ ls) model =
    let line = strip_inline_comment raw in
    model_lines current ls (
      if starts_with (to_upper line) (text "MODEL:")
      then value_or current (model_from_name (drop 6 line))
      else model)

-- The last MODEL: line counts.
unfoldable pub state_file_model : List ℕ → Model → Model
unfolding split_lines strip_inline_comment starts_with to_upper model_from_name
state_file_model s current = model_lines current (split_lines s) current

unfoldable pub is_state_file_name : List ℕ → Bool
unfolding lower_extension text_eq
is_state_file_name name =
    let ext = lower_extension name in
    text_eq ext (text "ti59") || text_eq ext (text "ti58") || text_eq ext (text "ti58c")
