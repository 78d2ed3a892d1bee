-- ===== src/Shared/StateFile/Listing/Laws.antt =====
-- What a printed PROGRAM section leaves in the machine.
use mathlib.Core.Path.{subst}
use calc_u.Base.{
  ℕ, suc, ◌+◌, ◌≤◌, ◌≡◌, refl, ap, sym, ◌∙◌, false, List, [], ◌∷◌, ◌++◌, Option, none, some, length,
  arith, pos, ◌==◌,
}
use calc_u.Core.Machine.{Machine}
use calc_u.Core.Machine.Memory.{read_program_step}
use calc_u.Shared.Model.{Model, info, max_step}
use calc_u.Shared.CardFile.Laws.{AreKeycodes}
use calc_u.Shared.TextUtil.Laws.{append_assoc, append_nil}
use calc_u.Shared.TextUtil.Trim.{text_eq}
use calc_u.Shared.StateApplier.{apply_state}
use calc_u.Shared.StateApplier.Program.{last_code, apply_state-read}
use calc_u.Shared.StateFile.{LoadStateResult}
use calc_u.Shared.StateFile.Lines.{
  parse_prog_line, put_codes, start_of, program_line, program_lines,
}
use calc_u.Shared.StateFile.Listing.{
  Line, labelled, going_on, gap, print_line, print_lines, steps_from, step_behind, line_steps,
  meaning, AreBelow, IsPrintable, ArePrintable,
}
use calc_u.Shared.StateFile.Listing.Parse.{parse_prog_line-codes, parse_prog_line-labelled}

put_codes_lem :
    (ks : List ℕ) (step : ℕ) (out : List (ℕ × ℕ))
    → put_codes step ks out ≡ (step + length ks, out ++ steps_from step ks)
put_codes_lem [] step out = let e : step + 0 ≡ step = omega arith in rw (e, append_nil out) refl
put_codes_lem (k ∷ ks) step out =
    let e : step + 1 + length ks ≡ step + suc (length ks) = omega arith in
    put_codes_lem ks (step + 1) (out ++ ((step, k) ∷ []))
    ∙ rw (e, append_assoc out ((step, k) ∷ []) (steps_from (step + 1) ks)) refl

-- A line that starts with another byte than a dot is no gap.
program_line-parsed :
    (top c : ℕ) (cs : List ℕ) (step : ℕ) (out : List (ℕ × ℕ)) (start : Option ℕ) (ks : List ℕ)
    → 48 ≤ c
    → parse_prog_line top (c ∷ cs) ≡ (start, ks)
    → program_line top (c ∷ cs) (step, out) ≡ put_codes (start_of start step) ks out
unfolding program_line text_eq
program_line-parsed top c cs step out start ks h e =
    let first : (c == 46) ≡ false = ground (arith, h) in
    rw first (ap (λ (r : Option ℕ × List ℕ). put_codes (start_of r.0 step) r.1 out) e)

program_line-gap :
    (top step : ℕ) (out : List (ℕ × ℕ))
    → program_line top (print_line gap) (step, out) ≡ (step, out)
unfolding program_line text_eq
program_line-gap top step out = refl

program_line-printed :
    (top : ℕ) (l : Line) (step : ℕ) (out : List (ℕ × ℕ))
    → IsPrintable top l
    → program_line top (print_line l) (step, out) ≡ (step_behind step l, out ++ line_steps step l)
program_line-printed top (labelled a k label) step out h =
    program_line-parsed top _ _ step out (some a) (k ∷ []) (omega arith)
      (parse_prog_line-labelled top a k label h)
program_line-printed top (going_on k []) step out h =
    program_line-parsed top _ _ step out none (k ∷ []) (omega arith)
      (parse_prog_line-codes top [] k h)
    ∙ put_codes_lem (k ∷ []) step out
    ∙ ap (λ n. (n, out ++ ((step, k) ∷ []))) (omega arith)
program_line-printed top (going_on k (k' ∷ ks)) step out h =
    program_line-parsed top _ _ step out none (k ∷ k' ∷ ks) (omega arith)
      (parse_prog_line-codes top (k' ∷ ks) k h)
    ∙ put_codes_lem (k ∷ k' ∷ ks) step out
    ∙ ap (λ n. (n, out ++ steps_from step (k ∷ k' ∷ ks))) (omega arith)
program_line-printed top gap step out h = rw (append_nil out) (program_line-gap top step out)

program_lines-printed :
    (top : ℕ) (ls : List Line) (step : ℕ) (out : List (ℕ × ℕ))
    → ArePrintable top ls
    → (program_lines top (print_lines ls) (step, out)).1 ≡ out ++ meaning step ls
unfolding program_lines
program_lines-printed top [] step out h = sym (append_nil out)
program_lines-printed top (l ∷ ls) step out (h, hs) =
    ap (λ st. (program_lines top (print_lines ls) st).1) (program_line-printed top l step out h)
    ∙ program_lines-printed top ls (step_behind step l) (out ++ line_steps step l) hs
    ∙ append_assoc out (line_steps step l) (meaning (step_behind step l) ls)

append-AreKeycodes :
    (xs ys : List (ℕ × ℕ)) → AreKeycodes xs → AreKeycodes ys → AreKeycodes (xs ++ ys)
append-AreKeycodes [] ys h k = k
append-AreKeycodes ((a, c) ∷ xs) ys (l, h) k = (l, append-AreKeycodes xs ys h k)

steps_from-AreKeycodes :
    (ks : List ℕ) (step : ℕ) → AreBelow 100 ks → AreKeycodes (steps_from step ks)
steps_from-AreKeycodes [] step h = h
steps_from-AreKeycodes (k ∷ ks) step (h, hs) =
    (omega (arith, h), steps_from-AreKeycodes ks (step + 1) hs)

line_steps-AreKeycodes :
    (top step : ℕ) (l : Line) → IsPrintable top l → AreKeycodes (line_steps step l)
line_steps-AreKeycodes top step (labelled a k label) (_, _, h) = (omega (arith, h), omega arith)
line_steps-AreKeycodes top step (going_on k ks) h = steps_from-AreKeycodes (k ∷ ks) step h
line_steps-AreKeycodes top step gap h = omega arith

meaning-AreKeycodes :
    (top step : ℕ) (ls : List Line) → ArePrintable top ls → AreKeycodes (meaning step ls)
meaning-AreKeycodes top step [] h = omega arith
meaning-AreKeycodes top step (l ∷ ls) (h, hs) =
    append-AreKeycodes (line_steps step l) (meaning (step_behind step l) ls)
      (line_steps-AreKeycodes top step l h) (meaning-AreKeycodes top (step_behind step l) ls hs)

-- A program that is printed as lines of its three notations, an address with one keycode and any
-- label, keycodes that go on from the step before, and a gap, with addresses up to `top` and below
-- 1000 and keycodes below 100, is parsed to just the steps that the lines mean. A file with these
-- steps and no registers then loads, and each step of the model reads as the keycode that the lines
-- give it last, or 0 if they give none.
pub program_lines-print_lines :
    (top : ℕ) (ls : List Line) (r : LoadStateResult) (model : Model) (m : Machine) (b : ℕ)
    → ArePrintable top ls
    → r.program_steps ≡ (program_lines top (print_lines ls) (0, [])).1
    → r.registers ≡ []
    → b ≤ max_step (info model)
    → ((program_lines top (print_lines ls) (0, [])).1 ≡ meaning 0 ls)
      × ((m' : Machine) × (apply_state r model m ≡ some m')
          × (read_program_step (pos b) m'.cpu ≡ some (last_code (λ k. k) (meaning 0 ls) b 0)))
program_lines-print_lines top ls r model m b h e n l =
    let parsed = program_lines-printed top ls 0 [] h in
    let given : r.program_steps ≡ meaning 0 ls = e ∙ parsed in
    let codes = subst AreKeycodes (sym given) (meaning-AreKeycodes top 0 ls h) in
    let (m', p, q) = apply_state-read r model m b n codes l in
    (parsed, (m', p, q ∙ ap (λ ss. some (last_code (λ k. k) ss b 0)) given))
