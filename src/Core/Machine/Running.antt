-- ===== src/Core/Machine/Running.antt =====
-- Core/TI59Machine.cpp: the loops `stepN` and `stepUntilNextKeycode`.
use calc_u.Base.{ℕ, zero, suc, ◌+◌, Bool, ◌&&◌, ◌||◌, Option, none, some, if◌then◌else◌, ltb, u32}
use calc_u.Core.Cpu.Step
use calc_u.Core.Cpu.Tracing.{consume_breakpoint_hit}
use calc_u.Core.Stepper.{Outcome}
use calc_u.Core.Machine.{Machine, step}

-- `n` rounds, fewer when a breakpoint stops them. Without `stop` the mark of a hit is left alone.
unfoldable pub step_n : ℕ → Bool → Machine → ℕ × Machine
unfolding consume_breakpoint_hit
step_n zero stop m = (0, m)
step_n (suc n) stop m =
    let c = (Step.step m.cpu).cpu in
    let (hit, t) = consume_breakpoint_hit c.trace in
    let after = record m { cpu = record c { trace = if stop then t else c.trace } } in
    let (done, last) = step_n n stop after in if stop && hit then (1, after) else (done + 1, last)

-- A breakpoint, or the program's next step.
abbrev pub is_marked : Outcome → Bool
is_marked r = r.breakpoint_hit || r.at_boundary

-- The loop on fuel, from `done` weighted cycles on.
unfoldable pub keycode_loop : ℕ → ℕ → ℕ → Machine → Option (ℕ × Machine)
unfolding step
keycode_loop zero done limit m = if ltb done limit then none else some (done, m)
keycode_loop (suc n) done limit m =
    let (r, m') = step m in
    let rest = keycode_loop n (u32 (done + r.weight)) limit m' in
    if ltb done limit
    then if is_marked r then some (u32 (done + r.weight), m') else rest
    else some (done, m)

-- A step weighs at least 1, so `limit` rounds are enough.
unfoldable pub step_until_next_keycode : ℕ → Machine → Option (ℕ × Machine)
unfolding keycode_loop
step_until_next_keycode limit m = keycode_loop limit 0 limit m
