-- ===== src/Shared/StateApplier/Examples.antt =====
-- State files on which the theorems are applied.
use calc_u.Base.{
  ℕ, ◌+◌, ◌*◌, ◌<◌, ◌≡◌, refl, false, List, [], ◌∷◌, none, some, pos, arith, slice, get_or,
  length-slice,
}
use calc_u.Core.Ram.{read}
use calc_u.Core.Cpu.State
use calc_u.Core.Machine.{Machine, init}
use calc_u.Core.Machine.Memory.{read_program_step}
use calc_u.Shared.Model.{ti59, ti58, ti58c, info}
use calc_u.Shared.StateFile.{LoadStateResult, ReloadStage}
use calc_u.Shared.StateApplier.{run_startup, apply_state, apply_reload, soft_reset, power_on}
use calc_u.Shared.StateApplier.Startup.{booted, run_startup_lem}
use calc_u.Shared.StateApplier.Resets.{HasSameRam, soft_reset-HasSameRam, saved-restored}
use calc_u.Shared.StateApplier.Program.{apply_state-read, apply_reload-read}

-- LBL A, then R/S at step 10, which is listed twice.
abbrev steps : List (ℕ × ℕ)
steps = (0, 76) ∷ (1, 11) ∷ (10, 91) ∷ (10, 92) ∷ []

abbrev file : LoadStateResult
file = record {
  partition_max_step = 479;
  partition_was_explicit = false;
  program_steps = steps;
  registers = [];
}

abbrev stage : ReloadStage
stage = record { partition_max_step = some 239; program_steps = steps; registers = [] }

abbrev machine : Machine
machine = init State.ti59

run_startup_lem_example : run_startup machine ≡ some (booted machine)
run_startup_lem_example = run_startup_lem machine

soft_reset-HasSameRam_example :
    (m' : Machine) × (soft_reset ti59 none machine ≡ some m') × HasSameRam machine m'
soft_reset-HasSameRam_example = soft_reset-HasSameRam ti59 machine

abbrev saved : List ℕ
saved = slice (λ i. i) 0 1920

saved-restored_example :
    (a b : Machine) × (power_on ti58c (some saved) (init State.ti58c) ≡ some a)
    × (soft_reset ti58c (some saved) (init State.ti58c) ≡ some b)
    × ((r i : ℕ)
        → r < 120
        → i < 16
        → (read a.cpu.ram r i ≡ some (get_or saved (r * 16 + i) 0))
          × (read b.cpu.ram r i ≡ some (get_or saved (r * 16 + i) 0)))
saved-restored_example =
    saved-restored saved (init State.ti58c) (omega (arith, length-slice (λ i. i) 0 1920))

apply_state-read_example :
    (m' : Machine) × (apply_state file ti58 (init State.ti58) ≡ some m')
    × (read_program_step (pos 10) m'.cpu ≡ some 92)
unfolding info
apply_state-read_example =
    apply_state-read file ti58 (init State.ti58) 10 refl (omega arith) (omega arith)

apply_reload-read_example :
    (m' : Machine) × (apply_reload stage ti59 machine ≡ some m')
    × (read_program_step (pos 10) m'.cpu ≡ some 92)
unfolding info
apply_reload-read_example = apply_reload-read stage ti59 machine 10 refl (omega arith) (omega arith)
