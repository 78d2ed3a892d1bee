-- ===== src/Shared/StateFile/Tokens.antt =====
-- Shared/TextUtil.hpp: `splitWhitespace` on a text of digits and single blanks, piece by piece.
use calc_u.Base.{
  ℕ, zero, suc, ◌+◌, ◌-◌, ◌≤◌, ◌<◌, ◌≡◌, refl, ap, sym, ◌∙◌, List, [], ◌∷◌, get_or, length, take,
  drop, arith, lt→ltb, ge→ltb,
}
use calc_u.Shared.TextUtil.Trim.{space_of, space_at}
use calc_u.Shared.StateFile.Lines.{white_from}

abbrev pub IsDigit : ℕ → Type 0
IsDigit c = (48 ≤ c) × (c ≤ 57)

get_or-drop : (s : List ℕ) (i j : ℕ) → get_or s (i + j) 0 ≡ get_or (drop i s) j 0
get_or-drop s zero j = let e : 0 + j ≡ j = omega arith in rw e refl
get_or-drop [] (suc i) j = refl
get_or-drop (x ∷ s) (suc i) j =
    let e : suc i + j ≡ suc (i + j) = omega arith in rw e (get_or-drop s i j)

drop-next : (s : List ℕ) (i c : ℕ) (rest : List ℕ) → drop i s ≡ c ∷ rest → drop (i + 1) s ≡ rest
drop-next [] zero c rest h = cc
drop-next (x ∷ s) zero c rest h = cc
drop-next [] (suc i) c rest h = cc
drop-next (x ∷ s) (suc i) c rest h =
    let e : suc i + 1 ≡ suc (i + 1) = omega arith in rw e (drop-next s i c rest h)

drop-lt : (s : List ℕ) (i c : ℕ) (rest : List ℕ) → drop i s ≡ c ∷ rest → i < length s
drop-lt [] zero c rest h = cc
drop-lt (x ∷ s) zero c rest h = omega arith
drop-lt [] (suc i) c rest h = cc
drop-lt (x ∷ s) (suc i) c rest h = omega (arith, drop-lt s i c rest h)

drop-ge : (s : List ℕ) (i : ℕ) → drop i s ≡ [] → length s ≤ i
drop-ge [] i h = omega arith
drop-ge (x ∷ s) zero h = cc
drop-ge (x ∷ s) (suc i) h = omega (arith, drop-ge s i h)

at_drop : (s : List ℕ) (i c : ℕ) (rest : List ℕ) → drop i s ≡ c ∷ rest → get_or s i 0 ≡ c
at_drop s i c rest h =
    let e : i ≡ i + 0 = omega arith in
    ap (λ j. get_or s j 0) e ∙ get_or-drop s i 0 ∙ ap (λ t. get_or t 0 0) h

space_of-digit : (c d e : ℕ) → IsDigit c → space_of c d e ≡ 0
unfolding space_of
space_of-digit c d e (h, k) = ground (arith, h, k)

space_of-blank : (d e : ℕ) → space_of 32 d e ≡ 1
unfolding space_of
space_of-blank d e = refl

white_from-digit :
    (f : ℕ) (s : List ℕ) (start i c : ℕ) (rest : List ℕ)
    → drop i s ≡ c ∷ rest
    → IsDigit c
    → white_from (suc f) s start i ≡ white_from f s start (i + 1)
unfolding white_from space_at
white_from-digit f s start i c rest h d =
    rw
      (
        lt→ltb i (length s) (drop-lt s i c rest h),
        at_drop s i c rest h,
        space_of-digit c (get_or s (i + 1) 0) (get_or s (i + 2) 0) d,
      )
      refl

white_from-blank :
    (f : ℕ) (s : List ℕ) (start i : ℕ) (rest : List ℕ)
    → drop i s ≡ 32 ∷ rest
    → start < i
    → white_from (suc f) s start i
      ≡ take (i - start) (drop start s) ∷ white_from f s (i + 1) (i + 1)
unfolding white_from space_at
white_from-blank f s start i rest h l =
    rw
      (
        lt→ltb i (length s) (drop-lt s i 32 rest h),
        at_drop s i 32 rest h,
        space_of-blank (get_or s (i + 1) 0) (get_or s (i + 2) 0),
        lt→ltb start i l,
      )
      refl

white_from-end :
    (f : ℕ) (s : List ℕ) (start i : ℕ)
    → drop i s ≡ []
    → start < length s
    → white_from (suc f) s start i ≡ drop start s ∷ []
unfolding white_from
white_from-end f s start i h l =
    rw (ge→ltb i (length s) (drop-ge s i h), lt→ltb start (length s) l) refl

module _ (f : ℕ) (s : List ℕ) (i x y : ℕ) (dx : IsDigit x) (dy : IsDigit y) where
  -- Two digits behind which a blank stands, or nothing.
  pub white_from-two :
      (rest : List ℕ)
      → drop i s ≡ x ∷ y ∷ 32 ∷ rest
      → white_from (suc (suc (suc f))) s i i ≡ (x ∷ y ∷ []) ∷ white_from f s (i + 3) (i + 3)
  white_from-two rest h =
      let h' = drop-next s i x (y ∷ 32 ∷ rest) h in
      let h'' = drop-next s (i + 1) y (32 ∷ rest) h' in
      let two : i + 1 + 1 - i ≡ 2 = omega arith in
      let three : i + 1 + 1 + 1 ≡ i + 3 = omega arith in
      white_from-digit (suc (suc f)) s i i x (y ∷ 32 ∷ rest) h dx
      ∙ white_from-digit (suc f) s i (i + 1) y (32 ∷ rest) h' dy
      ∙ white_from-blank f s i (i + 1 + 1) rest h'' (omega arith)
      ∙ rw (two, three, h) refl

  pub white_from-last :
      drop i s ≡ x ∷ y ∷ [] → white_from (suc (suc (suc f))) s i i ≡ (x ∷ y ∷ []) ∷ []
  white_from-last h =
      let h' = drop-next s i x (y ∷ []) h in
      let h'' = drop-next s (i + 1) y [] h' in
      white_from-digit (suc (suc f)) s i i x (y ∷ []) h dx
      ∙ white_from-digit (suc f) s i (i + 1) y [] h' dy
      ∙ white_from-end f s i (i + 1 + 1) h'' (drop-lt s i x (y ∷ []) h)
      ∙ ap (λ t. t ∷ []) h

  pub white_from-three :
      (z : ℕ) (rest : List ℕ)
      → IsDigit z
      → drop i s ≡ x ∷ y ∷ z ∷ 32 ∷ rest
      → white_from (suc (suc (suc (suc f)))) s i i
        ≡ (x ∷ y ∷ z ∷ []) ∷ white_from f s (i + 4) (i + 4)
  white_from-three z rest dz h =
      let h₁ = drop-next s i x (y ∷ z ∷ 32 ∷ rest) h in
      let h₂ = drop-next s (i + 1) y (z ∷ 32 ∷ rest) h₁ in
      let h₃ = drop-next s (i + 1 + 1) z (32 ∷ rest) h₂ in
      let three : i + 1 + 1 + 1 - i ≡ 3 = omega arith in
      let four : i + 1 + 1 + 1 + 1 ≡ i + 4 = omega arith in
      white_from-digit (suc (suc (suc f))) s i i x (y ∷ z ∷ 32 ∷ rest) h dx
      ∙ white_from-digit (suc (suc f)) s i (i + 1) y (z ∷ 32 ∷ rest) h₁ dy
      ∙ white_from-digit (suc f) s i (i + 1 + 1) z (32 ∷ rest) h₂ dz
      ∙ white_from-blank f s i (i + 1 + 1 + 1) rest h₃ (omega arith)
      ∙ rw (three, four, h) refl

drop-nil : (n : ℕ) → drop {A = ℕ} n [] ≡ []
drop-nil zero = refl
drop-nil (suc n) = refl

pub drop-add : (s : List ℕ) (i n : ℕ) → drop (i + n) s ≡ drop n (drop i s)
drop-add s zero n = let e : 0 + n ≡ n = omega arith in rw e refl
drop-add [] (suc i) n = drop-nil (suc i + n) ∙ sym (drop-nil n)
drop-add (x ∷ s) (suc i) n = let e : suc i + n ≡ suc (i + n) = omega arith in rw e (drop-add s i n)
