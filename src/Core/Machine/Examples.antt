-- ===== src/Core/Machine/Examples.antt =====
-- Runs of the machine's theorems, on machines that were switched on.
use calc_u.Base.{ℕ, ◌≤◌, ◌≡◌, refl, true, false, List, [], ◌∷◌, some, pos, arith}
use calc_u.Core.Cpu.State
use calc_u.Core.Cpu.State.{Cpu}
use calc_u.Core.Cpu.Tracing
use calc_u.Core.Stepper.{after, spent}
use calc_u.Core.Machine.{Machine, init, new_cpu}
use calc_u.Core.Machine.Laws.{stepper}
use calc_u.Core.Machine.Running.{step_until_next_keycode}
use calc_u.Core.Machine.Loops.{EndsAt, step_until_next_keycode_lem}
use calc_u.Core.Machine.Breakpoints.{
  Call, add, remove, Implements, call_all, specify_all, call_all-Implements,
}
use calc_u.Core.Machine.Memory.{write_program, read_program_step}
use calc_u.Core.Machine.Memory.Laws.{write_program-read}

abbrev machine : Machine
machine = init State.ti58c

step_until_next_keycode_lem_example :
    (k : ℕ) × (step_until_next_keycode 20 machine
      ≡ some (spent stepper k machine, after stepper k machine))
    × EndsAt k 0 20 machine
    × (k ≤ 20)
step_until_next_keycode_lem_example = step_until_next_keycode_lem 20 machine (omega arith)

-- A TI-59 with the printer's TRACE pressed.
abbrev traced : Machine
traced = record { cpu = new_cpu; printer_connected = true; printer_trace = true }

abbrev three_calls : List Call
three_calls = add 100 ∷ add 50 ∷ remove 100 ∷ []

call_all-Implements_example :
    Implements (call_all three_calls traced) (specify_all three_calls (λ x. false))
unfolding Tracing.has_breakpoint
call_all-Implements_example = call_all-Implements three_calls traced (λ x. false) (tt, λ x. refl)

write_program-read_example :
    (d : Cpu) × (write_program (λ i. 76) (pos 3) new_cpu ≡ some d)
    × (read_program_step (pos 2) d ≡ some 76)
write_program-read_example =
    write_program-read (λ i. 76) 3 2 new_cpu (λ i. omega arith) (omega arith)
