-- ===== src/Core/Machine/Loops.antt =====
-- `stepN` and `stepUntilNextKeycode` end, and where.
use calc_u.Base.{
  ℕ, zero, suc, ◌+◌, ◌-◌, ◌≤◌, ◌<◌, ◌≡◌, refl, ap, ◌∙◌, ◌⊎◌, inl, inr, true, false, Option, some,
  if◌then◌else◌, ltb, arith, Bool-cases, lt→ltb, ltb→lt, ge→ltb, u32,
}
use calc_u.Core.Stepper.{after, spent}
use calc_u.Core.Machine.{Machine, step}
use calc_u.Core.Machine.Running.{is_marked, keycode_loop, step_until_next_keycode, step_n}
use calc_u.Core.Machine.Laws.{step-IsWeight, stepper}

-- Within `k` steps from `done` cycles: no step before the last is marked or starts at the limit,
-- and the last is marked or reaches the limit.
abbrev pub EndsAt : ℕ → ℕ → ℕ → Machine → Type 0
EndsAt zero done limit m = limit ≤ done
EndsAt (suc k) done limit m =
    (done < limit)
    × (((is_marked (step m).0 ≡ true) × (k ≡ 0))
        ⊎ ((is_marked (step m).0 ≡ false) × EndsAt k (done + (step m).0.weight) limit (step m).1))

keycode_loop_done :
    (fuel done limit : ℕ) (m : Machine)
    → limit ≤ done
    → keycode_loop fuel done limit m ≡ some (done, m)
unfolding keycode_loop
keycode_loop_done zero done limit m h = rw (ge→ltb done limit h) refl
keycode_loop_done (suc n) done limit m h = rw (ge→ltb done limit h) refl

keycode_loop_more :
    (n done limit : ℕ) (m : Machine)
    → done < limit
    → limit + 3 < 4294967296
    → keycode_loop (suc n) done limit m ≡ (
        if is_marked (step m).0
        then some (done + (step m).0.weight, (step m).1)
        else keycode_loop n (done + (step m).0.weight) limit (step m).1)
unfolding keycode_loop
keycode_loop_more n done limit m h k =
    let w = step-IsWeight m in
    let fits : u32 (done + (step m).0.weight) ≡ done + (step m).0.weight =
      omega (arith, w.0, w.1) in
    rw (lt→ltb done limit h, fits) refl

-- What the loop returns after `k` steps.
abbrev pub reached : ℕ → ℕ → Machine → Option (ℕ × Machine)
reached k done m = some (done + spent stepper k m, after stepper k m)

reached_zero : (done : ℕ) (m : Machine) → some (done, m) ≡ reached 0 done m
reached_zero done m = ap (λ n. some (n, m)) (omega arith)

reached-suc :
    (k done : ℕ) (m : Machine)
    → reached k (done + (step m).0.weight) (step m).1 ≡ reached (suc k) done m
reached-suc k done m = ap (λ n. some (n, after stepper k (step m).1)) (omega arith)

-- Enough fuel is what is left to the limit: each step weighs at least 1.
keycode_loop_lem :
    (fuel done limit : ℕ) (m : Machine)
    → limit + 3 < 4294967296
    → limit ≤ done + fuel
    → (k : ℕ) × (keycode_loop fuel done limit m ≡ reached k done m)
      × EndsAt k done limit m
      × (k ≤ fuel)
keycode_loop_lem zero done limit m h k = (
  0,
  keycode_loop_done 0 done limit m (omega arith) ∙ reached_zero done m,
  omega arith,
  omega arith,
)
keycode_loop_lem (suc n) done limit m h k = elim (Bool-cases (ltb done limit)) [
  | inr f ↦ (
    0,
    keycode_loop_done (suc n) done limit m (ground (arith, f)) ∙ reached_zero done m,
    ground (arith, f),
    omega arith,
  )
  | inl t ↦
      let lt = ltb→lt done limit t in
      let (one, _) = step-IsWeight m in
      let w = (step m).0.weight in
      let more = keycode_loop_more n done limit m lt h in
      elim (Bool-cases (is_marked (step m).0)) [
        | inl a ↦ (
          1,
          more ∙ rw a (reached_zero (done + w) (step m).1 ∙ reached-suc 0 done m),
          (lt, inl (a, refl)),
          omega arith,
        )
        | inr b ↦
            let (j, e, ends, le) =
              keycode_loop_lem n (done + w) limit (step m).1 h (omega (arith, one, k)) in
            (suc j, more ∙ rw b (e ∙ reached-suc j done m), (lt, inr (b, ends)), omega arith)
      ]
]

-- For a limit that leaves a step's weight of room below 2^32, running to the next keycode always
-- ends, after at most `limit` steps, with their cycles: at the first marked step (a breakpoint or
-- a step boundary), or at the first state that has reached the limit.
pub step_until_next_keycode_lem :
    (limit : ℕ) (m : Machine)
    → limit + 3 < 4294967296
    → (k : ℕ) × (step_until_next_keycode limit m ≡ some (spent stepper k m, after stepper k m))
      × EndsAt k 0 limit m
      × (k ≤ limit)
unfolding step_until_next_keycode
step_until_next_keycode_lem limit m h =
    let (k, e, ends, le) = keycode_loop_lem limit 0 limit m h (omega arith) in
    (k, e ∙ ap (λ n. some (n, after stepper k m)) (omega arith), ends, le)

-- `k` of at most `n` steps: none before the last hits a breakpoint, and the last does or is the
-- n-th.
abbrev pub StopsAt : ℕ → ℕ → Machine → Type 0
StopsAt zero n m = n ≡ 0
StopsAt (suc k) n m =
    (0 < n)
    × ((((step m).0.breakpoint_hit ≡ true) × (k ≡ 0))
        ⊎ (((step m).0.breakpoint_hit ≡ false) × StopsAt k (n - 1) (step m).1))

step_n_zero : (m : Machine) → step_n 0 true m ≡ (0, m)
unfolding step_n
step_n_zero m = refl

suc_minus : (n : ℕ) → suc n - 1 ≡ n
suc_minus n = omega arith

step_n-suc :
    (n : ℕ) (m : Machine)
    → step_n (suc n) true m ≡ (
        if (step m).0.breakpoint_hit
        then (1, (step m).1)
        else ((step_n n true (step m).1).0 + 1, (step_n n true (step m).1).1))
unfolding step_n step
step_n-suc n m = refl

-- Stepping `n` times with breakpoints ends at the first hit, after that step, or after `n` steps,
-- and reports how many it made.
pub step_n-stop :
    (n : ℕ) (m : Machine) → (k : ℕ) × (step_n n true m ≡ (k, after stepper k m)) × StopsAt k n m
step_n-stop zero m = (0, step_n_zero m, refl)
step_n-stop (suc n) m = elim (Bool-cases (step m).0.breakpoint_hit) [
  | inl h ↦ (1, step_n-suc n m ∙ rw h refl, (omega arith, inl (h, refl)))
  | inr q ↦
      let (k, e, stops) = step_n-stop n (step m).1 in
      (
        suc k,
        step_n-suc n m ∙ rw (q, e) (ap (λ i. (i, after stepper k (step m).1)) (omega arith)),
        (omega arith, inr (q, rw (suc_minus n) stops)),
      )
]
