-- ===== src/Core/Stepper.antt =====
-- What the run loops need of the machine (Core/TI59Machine.hpp, `step()` and `pc()`): an interface
-- with the law on the weight of a step, and the state and the cycles after a number of steps.
use calc_u.Base.{ℕ, zero, suc, ◌+◌, ◌≤◌, ◌≡◌, refl, Bool, arith}

-- The bits of the word that `step()` returns.
pub record Outcome : Type 0 where
  pub weight : ℕ
  pub polled_hardware : Bool
  pub at_boundary : Bool
  pub breakpoint_hit : Bool

abbrev pub IsWeight : ℕ → Type 0
IsWeight w = (1 ≤ w) × (w ≤ 4)

pub record Stepper {ℓ} (M : Type ℓ) : Type ℓ where
  pub step : M → Outcome × M
  pub pc : M → ℕ
  pub weight_lem : (m : M) → IsWeight (step m).0.weight

module _ {ℓ} {M : Type ℓ} (s : Stepper M) where
  abbrev pub next : M → M
  next m = (s.step m).1

  abbrev pub weight_of : M → ℕ
  weight_of m = (s.step m).0.weight

  -- The state after `k` steps, and the cycles that they take.
  abbrev pub after : ℕ → M → M
  after zero m = m
  after (suc k) m = after k (next m)

  abbrev pub spent : ℕ → M → ℕ
  spent zero m = 0
  spent (suc k) m = weight_of m + spent k (next m)

  -- Steps in two lots are steps in one.
  pub after_add : (j k : ℕ) (m : M) → after (j + k) m ≡ after k (after j m)
  after_add zero k m = let e : 0 + k ≡ k = omega arith in rw e refl
  after_add (suc j) k m =
      let e : suc j + k ≡ suc (j + k) = omega arith in rw e (after_add j k (next m))

  pub spent_add : (j k : ℕ) (m : M) → spent (j + k) m ≡ spent j m + spent k (after j m)
  spent_add zero k m = let e : 0 + k ≡ k = omega arith in rw e (omega arith)
  spent_add (suc j) k m =
      let e : suc j + k ≡ suc (j + k) = omega arith in rw e (omega (arith, spent_add j k (next m)))

  -- The last of some steps weighs 1 to 4.
  pub spent_last :
      (j : ℕ) (m : M) → (spent j m + 1 ≤ spent (suc j) m) × (spent (suc j) m ≤ spent j m + 4)
  spent_last zero m = let w = s.weight_lem m in (omega (arith, w.0), omega (arith, w.1))
  spent_last (suc j) m = let (a, b) = spent_last j (next m) in (omega (arith, a), omega (arith, b))
