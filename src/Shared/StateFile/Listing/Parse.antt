-- ===== src/Shared/StateFile/Listing/Parse.antt =====
-- Shared/StateFile.cpp: `parseProgLine` and the loop over a PROGRAM section's lines on a printed
-- listing.
use calc_u.Base.{
  ℕ, suc, ◌+◌, ◌/◌, ◌%◌, ◌<◌, ◌≡◌, refl, ap, ◌∙◌, List, [], ◌∷◌, ◌++◌, Option, none, some, length,
  drop, arith,
}
use calc_u.Shared.StateFile.Lines.{
  white_from, split_whitespace, keycode, keycodes, step_prefix, first_keycode, prog_tokens,
  parse_prog_line,
}
use calc_u.Shared.StateFile.Tokens.{
  IsDigit, white_from-two, white_from-last, white_from-three, drop-add,
}
use calc_u.Shared.StateFile.Listing.{
  labelled, two_digits, three_digits, blank_codes, print_line, AreBelow, IsPrintable,
  keycode-two_digits, step_prefix-two_digits, step_prefix-three_digits,
}

tens-IsDigit : (k : ℕ) → k < 100 → IsDigit (48 + k / 10)
tens-IsDigit k h = (omega arith, omega arith)

ones-IsDigit : (k : ℕ) → IsDigit (48 + k % 10)
ones-IsDigit k = (omega arith, omega arith)

-- The rounds that a line of keycodes takes.
abbrev rounds : List ℕ → ℕ
rounds [] = 3
rounds (k ∷ ks) = suc (suc (suc (rounds ks)))

abbrev code_tokens : ℕ → List ℕ → List (List ℕ)
code_tokens k [] = two_digits k ∷ []
code_tokens k (k' ∷ ks) = two_digits k ∷ code_tokens k' ks

white_from-codes :
    (ks : List ℕ) (k : ℕ) (s : List ℕ) (i : ℕ)
    → AreBelow 100 (k ∷ ks)
    → drop i s ≡ blank_codes k ks
    → white_from (rounds ks) s i i ≡ code_tokens k ks
white_from-codes [] k s i (h, _) e =
    white_from-last 0 s i (48 + k / 10) (48 + k % 10) (tens-IsDigit k h) (ones-IsDigit k) e
white_from-codes (k' ∷ ks) k s i (h, below) e =
    white_from-two (rounds ks) s i (48 + k / 10) (48 + k % 10) (tens-IsDigit k h) (ones-IsDigit k)
      (blank_codes k' ks) e
    ∙ ap (λ ts. two_digits k ∷ ts)
        (white_from-codes ks k' s (i + 3) below (drop-add s i 3 ∙ ap (drop 3) e))

rounds_lem : (ks : List ℕ) (k : ℕ) → suc (length (blank_codes k ks)) ≡ rounds ks
rounds_lem [] k = refl
rounds_lem (k' ∷ ks) k = ap (λ n. suc (suc (suc n))) (rounds_lem ks k')

split_whitespace-codes :
    (ks : List ℕ) (k : ℕ)
    → AreBelow 100 (k ∷ ks)
    → split_whitespace (blank_codes k ks) ≡ code_tokens k ks
unfolding split_whitespace
split_whitespace-codes ks k h =
    let s = blank_codes k ks in
    ap (λ f. white_from f s 0 0) (rounds_lem ks k) ∙ white_from-codes ks k s 0 h refl

keycodes-some :
    (t : List ℕ) (ts : List (List ℕ)) (k : ℕ)
    → keycode t ≡ some k
    → keycodes (t ∷ ts) ≡ k ∷ keycodes ts
unfolding keycodes
keycodes-some t ts k h =
    ap (λ (o : Option ℕ). elim o [ none ↦ keycodes ts | some n ↦ n ∷ keycodes ts ]) h

keycodes-none : keycodes [] ≡ []
unfolding keycodes
keycodes-none = refl

keycodes-tokens :
    (ks : List ℕ) (k : ℕ) → AreBelow 100 (k ∷ ks) → keycodes (code_tokens k ks) ≡ k ∷ ks
keycodes-tokens [] k (h, _) =
    keycodes-some (two_digits k) [] k (keycode-two_digits k h) ∙ ap (λ l. k ∷ l) keycodes-none
keycodes-tokens (k' ∷ ks) k (h, below) =
    keycodes-some (two_digits k) (code_tokens k' ks) k (keycode-two_digits k h)
    ∙ ap (λ l. k ∷ l) (keycodes-tokens ks k' below)

prog_tokens-prefix :
    (top a : ℕ) (t : List ℕ) (ts : List (List ℕ))
    → step_prefix top t ≡ some a
    → prog_tokens top (t ∷ ts) ≡ (some a, first_keycode ts)
prog_tokens-prefix top a t ts h =
    ap
      (λ (o : Option ℕ).
        let r : Option ℕ × List ℕ = elim o [
          | some start ↦ (some start, first_keycode ts)
          | none ↦ (none, keycodes (t ∷ ts))
        ] in
        r)
      h

prog_tokens-codes :
    (top : ℕ) (t : List ℕ) (ts : List (List ℕ))
    → step_prefix top t ≡ none
    → prog_tokens top (t ∷ ts) ≡ (none, keycodes (t ∷ ts))
prog_tokens-codes top t ts h =
    ap
      (λ (o : Option ℕ).
        let r : Option ℕ × List ℕ = elim o [
          | some start ↦ (some start, first_keycode ts)
          | none ↦ (none, keycodes (t ∷ ts))
        ] in
        r)
      h

tokens-codes :
    (top : ℕ) (ks : List ℕ) (k : ℕ)
    → AreBelow 100 (k ∷ ks)
    → prog_tokens top (code_tokens k ks) ≡ (none, k ∷ ks)
tokens-codes top [] k (h, r) =
    prog_tokens-codes top (two_digits k) [] (step_prefix-two_digits top k h)
    ∙ ap (λ l. (none, l)) (keycodes-tokens [] k (h, r))
tokens-codes top (k' ∷ ks) k (h, r) =
    prog_tokens-codes top (two_digits k) (code_tokens k' ks) (step_prefix-two_digits top k h)
    ∙ ap (λ l. (none, l)) (keycodes-tokens (k' ∷ ks) k (h, r))

pub parse_prog_line-codes :
    (top : ℕ) (ks : List ℕ) (k : ℕ)
    → AreBelow 100 (k ∷ ks)
    → parse_prog_line top (blank_codes k ks) ≡ (none, k ∷ ks)
unfolding parse_prog_line
parse_prog_line-codes top ks k h =
    ap (prog_tokens top) (split_whitespace-codes ks k h) ∙ tokens-codes top ks k h

-- Behind the address and the keycode, the label's pieces.
split_whitespace-labelled :
    (a k : ℕ) (label : List ℕ)
    → a < 1000
    → k < 100
    → (ts : List (List ℕ)) × (split_whitespace (print_line (labelled a k label))
        ≡ three_digits a ∷ two_digits k ∷ ts)
unfolding split_whitespace
split_whitespace-labelled a k label h l =
    let s = print_line (labelled a k label) in
    let f = suc (length label) in
    let behind = two_digits k ++ (32 ∷ label) in
    (
      white_from f s 7 7,
      white_from-three (suc (suc (suc f))) s 0 (48 + a / 100) (48 + a / 10 % 10)
            (omega arith, omega arith) (ones-IsDigit (a / 10)) (48 + a % 10) behind (ones-IsDigit a)
            refl
          ∙ ap (λ ts. three_digits a ∷ ts)
              (white_from-two f s 4 (48 + k / 10) (48 + k % 10) (tens-IsDigit k l) (ones-IsDigit k)
                label refl),
    )

pub parse_prog_line-labelled :
    (top a k : ℕ) (label : List ℕ)
    → IsPrintable top (labelled a k label)
    → parse_prog_line top (print_line (labelled a k label)) ≡ (some a, k ∷ [])
unfolding parse_prog_line
parse_prog_line-labelled top a k label (h, l, o) =
    let (ts, e) = split_whitespace-labelled a k label l o in
    ap (prog_tokens top) e
    ∙ prog_tokens-prefix top a (three_digits a) (two_digits k ∷ ts)
        (step_prefix-three_digits top a h l)
    ∙ ap (λ ks. (some a, ks)) (keycodes-tokens [] k (o, omega arith))
