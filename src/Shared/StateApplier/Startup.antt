-- ===== src/Shared/StateApplier/Startup.antt =====
-- The startup makes all its steps, whatever breakpoints are hit.
use calc_u.Base.{
  ℕ, zero, suc, ◌+◌, ◌-◌, ◌≤◌, ◌<◌, ◌≡◌, refl, ap, sym, ◌∙◌, inl, inr, true, some, ltb, arith,
  Bool-cases, lt→ltb, ltb→lt, ge→ltb,
}
use calc_u.Core.Stepper.{after, after_add}
use calc_u.Core.Machine.{Machine}
use calc_u.Core.Machine.Running.{step_n}
use calc_u.Core.Machine.Laws.{stepper}
use calc_u.Core.Machine.Loops.{StopsAt, step_n-stop}
use calc_u.Shared.StateApplier.{startup_steps, startup_loop, run_startup}

-- A round makes a step at least, and no more than it is asked for.
StopsAt-bounds : (k n : ℕ) (m : Machine) → StopsAt k n m → 0 < n → (1 ≤ k) × (k ≤ n)
StopsAt-bounds zero n m e l = absurd (omega (arith, e))
StopsAt-bounds (suc zero) n m (p, h) l = (omega arith, omega (arith, p))
StopsAt-bounds (suc (suc k)) n m (p, inl (hit, e)) l = absurd (omega (arith, e))
StopsAt-bounds (suc (suc k)) n m (p, inr (no_hit, (q, h))) l =
    let (_, le) = StopsAt-bounds (suc k) (n - 1) _ (q, h) q in (omega arith, omega (arith, le))

startup_loop_done :
    (f done limit : ℕ) (m : Machine) → limit ≤ done → startup_loop f done limit m ≡ some m
unfolding startup_loop
startup_loop_done zero done limit m h = rw (ge→ltb done limit h) refl
startup_loop_done (suc f) done limit m h = rw (ge→ltb done limit h) refl

startup_loop-suc :
    (f done limit : ℕ) (m : Machine)
    → done < limit
    → startup_loop (suc f) done limit m
      ≡ startup_loop f
          (done + (step_n (limit - done) true m).0)
          limit
          (step_n (limit - done) true m).1
unfolding startup_loop
startup_loop-suc f done limit m h = rw (lt→ltb done limit h) refl

-- Rounds that a breakpoint ends are followed by others, until all steps are made.
startup_loop_lem :
    (f done limit : ℕ) (m : Machine)
    → done ≤ limit
    → limit ≤ done + f
    → startup_loop f done limit m ≡ some (after stepper (limit - done) m)
startup_loop_lem zero done limit m h l =
    let e : limit - done ≡ 0 = omega arith in
    startup_loop_done 0 done limit m (omega arith) ∙ rw e refl
startup_loop_lem (suc rounds) done limit m h l = elim (Bool-cases (ltb done limit)) [
  | inr f ↦
      let e : limit - done ≡ 0 = ground (arith, f) in
      startup_loop_done (suc rounds) done limit m (ground (arith, f)) ∙ rw e refl
  | inl t ↦
      let lt = ltb→lt done limit t in
      let (k, e, stops) = step_n-stop (limit - done) m in
      let (low, high) = StopsAt-bounds k (limit - done) m stops (omega (arith, lt)) in
      let split : limit - done ≡ k + (limit - (done + k)) = omega (arith, high, lt) in
      startup_loop-suc rounds done limit m lt
      ∙ ap (λ (r : ℕ × Machine). startup_loop rounds (done + r.0) limit r.1) e
      ∙ startup_loop_lem rounds (done + k) limit (after stepper k m) (omega (arith, high, lt))
          (omega (arith, low, l))
      ∙ ap some (sym (after_add stepper k (limit - (done + k)) m))
      ∙ ap (λ n. some (after stepper n m)) (sym split)
]

-- The machine after all steps of the startup.
unfoldable pub booted : Machine → Machine
booted m = after stepper startup_steps m

-- The power-on routine always ends, after exactly 300,000 steps of the machine: a breakpoint does
-- not cut it short.
pub run_startup_lem : (m : Machine) → run_startup m ≡ some (booted m)
unfolding run_startup booted
run_startup_lem m = startup_loop_lem startup_steps 0 startup_steps m (omega arith) (omega arith)
