-- ===== src/Shared/Pacing/Within.antt =====
-- Shared/Pacing.cpp: the carry of a batch stays below its target and the weight of a step.
use mathlib.Core.Path.{subst}
use calc_u.Base.{
  ℕ, zero, suc, ◌+◌, ◌≤◌, ◌<◌, ◌≡◌, inl, inr, Bool, false, ◌||◌, Option, none, some, ltb, arith,
  Bool-cases, Option-cases, ltb→lt,
}
use calc_u.Core.Stepper.{Stepper}
use calc_u.Shared.Freeze.{FreezeController, check_step}
use calc_u.Shared.Pacing.{Batch, batch_loop, run_batch}

module _ {ℓ} {M : Type ℓ} (s : Stepper M) where
  abbrev IsWithin : ℕ → Option (Batch M) → Type 0
  IsWithin target none = 0 ≤ target
  IsWithin target (some b) = b.carry < target + 4

  batch_loop-IsWithin :
      (fuel : ℕ) (polled : Bool) (carry target : ℕ) (f : FreezeController) (m : M)
      → carry < target + 4
      → IsWithin target (batch_loop s fuel polled carry target f m)
  unfolding batch_loop
  batch_loop-IsWithin zero polled carry target f m h = elim (Bool-cases (ltb carry target)) [
    | inl t ↦ rw t (omega arith)
    | inr o ↦ rw o (omega (arith, h))
  ]
  batch_loop-IsWithin (suc n) polled carry target f m h = elim (Bool-cases (ltb carry target)) [
    | inr over ↦ rw over (omega (arith, h))
    | inl t ↦
        let lt = ltb→lt carry target t in
        let r = (s.step m).0 in
        let m' = (s.step m).1 in
        let checked = check_step (s.pc m') r.at_boundary f in
        let light : carry + r.weight < target + 4 = omega (arith, lt, (s.weight_lem m).1) in
        elim (Bool-cases r.breakpoint_hit) [
          | inl hit ↦ rw (t, hit) h
          | inr on ↦ elim (Option-cases checked.0) [
            | inl quiet ↦
                rw (t, on, quiet)
                  (batch_loop-IsWithin n (polled || r.polled_hardware) (carry + r.weight) target
                    checked.1 m' light)
            | inr (owner, fired) ↦ rw (t, on, fired) light
          ]
        ]
  ]

  pub run_batch-below :
      (carry target : ℕ) (f : FreezeController) (m : M) (b : Batch M)
      → run_batch s carry target f m ≡ some b
      → carry < target + 4
      → b.carry < target + 4
  unfolding run_batch
  run_batch-below carry target f m b h l =
      subst (IsWithin target) h (batch_loop-IsWithin target false carry target f m l)
