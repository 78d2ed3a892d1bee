-- ===== src/Shared/Examples.antt =====
-- Runs of the theorems about the shared code.
use calc_u.Base.{
  get_or, ◌*◌, ℕ, ◌+◌, ◌≤◌, ◌<◌, ◌≡◌, refl, true, false, List, [], ◌∷◌, none, some, arith, length,
}
use calc_u.Core.Cpu.State
use calc_u.Core.Stepper.{after}
use calc_u.Core.Machine.{Machine, init}
use calc_u.Core.Machine.Laws.{stepper}
use calc_u.Base.{◌++◌, ◌%◌}
use calc_u.Shared.Model.{PcRange, contains, ti59}
use calc_u.Shared.Freeze
use calc_u.Shared.Freeze.{
  FreezeController, FreezeOwner, cpu, apply_all, arm_scan, arm_change, disarm_change,
  arm_scan_loop_exit, disarm_scan_loop_exit,
}
use calc_u.Shared.Freeze.Laws.{watch, watch-scan}
use calc_u.Shared.Pacing.{Batch, run_batch, run_batches}
use calc_u.Shared.Pacing.Laws.{Ran, run_batch_lem}
use calc_u.Shared.Pacing.Batches.{AreFull, IsPaced}
use calc_u.Shared.Pacing.Jitter.{targets, last_offset, run_batches-targets}
use calc_u.Shared.Pacing.Jitter
use calc_u.Shared.KeySequencer.{Host}
use calc_u.Shared.KeySequencer.Lane
use calc_u.Shared.KeySequencer.Lane.{Laned}
use calc_u.Shared.KeySequencer.Keyboard.{key_event}
use calc_u.Shared.KeySequencer.Log.{Log}
use calc_u.Shared.KeySequencer.Play.{
  Op, posted, cancelled, advanced, happen_all, IsSound, happen_all-IsSound,
}
use calc_u.Shared.Bcd.{parse_register_line_hex, register_line_hex, decode_register_line}
use calc_u.Shared.Bcd.Laws.{parse-hex}
use calc_u.Shared.Runner.{Runner, pump}
use calc_u.Shared.Runner.Laws.{IsOnSchedule, pump-IsOnSchedule}
use calc_u.Shared.CardFile.{CardDefinition, build_card_bank, low_sum}
use calc_u.Shared.CardFile.Laws.{byte_sum, build_card_bank_lem}
use calc_u.Shared.ModuleImage.{parse, library_step}
use calc_u.Shared.ModuleImage.Laws.{library_step-parse}

abbrev machine : Machine
machine = init State.ti59

abbrev loop : PcRange
loop = record { lo = 0x063C; hi = 0x0660; extra_lo = 1; extra_hi = 0 }

abbrev idle_freeze : FreezeController
idle_freeze = Freeze.init loop

run_batch_lem_example : Ran stepper (run_batch stepper 2 284 idle_freeze machine) 2 284 machine
run_batch_lem_example = run_batch_lem stepper 2 284 idle_freeze machine

abbrev offsets : List ℕ
offsets = 100 ∷ 0 ∷ 142 ∷ []

run_batches-targets_example :
    let ts = targets offsets (Jitter.init 284) in
    (b : Batch Machine) × (k : ℕ) × (n : ℕ) × (run_batches stepper ts 0 idle_freeze machine
      ≡ some b)
    × (b.machine ≡ after stepper k machine)
    × AreFull stepper n ts 0 idle_freeze machine b
    × (b.carry < get_or ts n 0 + 4)
    × IsPaced stepper b.stop k n 3 b.carry 0 (n * 284 + last_offset offsets n 0) machine
    × (last_offset offsets n 0 ≤ 142)
run_batches-targets_example =
    run_batches-targets stepper offsets 284 idle_freeze machine
      (omega arith, (omega arith, (omega arith, omega arith)))

-- Armed outside the loop, which is entered at 0x063C and left at 0x0661.
watch-scan_example :
    watch
      ((100, true) ∷ (0x063C, false) ∷ (0x0640, false) ∷ (0x0661, false) ∷ (5, false) ∷ [])
      (arm_scan_loop_exit 99 idle_freeze)
    ≡ (some cpu, (5, false) ∷ [], disarm_scan_loop_exit (arm_scan_loop_exit 99 idle_freeze))
unfolding contains
watch-scan_example =
    watch-scan ((100, true) ∷ []) ((0x0640, false) ∷ []) ((5, false) ∷ []) (0x063C, false)
      (0x0661, false) 99 idle_freeze (refl, refl) ((λ e. ground (arith, e)), refl) refl (refl, refl)
      refl

-- A host whose processor is in the scan loop, and that counts its calls.
abbrev counting : Host ℕ
counting = record {
  act = λ now a h. h + 1;
  pc = λ h. 0x0640;
  is_frozen = λ h. false;
  host_pending = λ h. false;
}

abbrev quiet_lane : Laned (Log × ℕ)
quiet_lane = record { lane = Lane.init; host = ([], 0); playing = false }

abbrev playback : List (Op counting)
playback =
    posted (key_event 11 ∷ key_event 12 ∷ []) true
    ∷ advanced 10
    ∷ advanced 150000
    ∷ cancelled
    ∷ advanced 300000
    ∷ []

happen_all-IsSound_example :
    (s : Laned (Log × ℕ)) × (happen_all counting loop playback quiet_lane ≡ some s)
    × IsSound counting s
happen_all-IsSound_example =
    happen_all-IsSound counting loop playback quiet_lane (omega arith, refl, omega arith)

parse-hex_example :
    (bytes : List ℕ) × (parse_register_line_hex (register_line_hex (λ i. 7)) ≡ some bytes)
    × (length bytes ≡ 8)
    × ((i : ℕ) → i < 16 → decode_register_line bytes i ≡ 7)
parse-hex_example = parse-hex (λ i. 7) (λ i h. omega arith)

-- One program of two steps behind the table.
library_step-parse_example :
    library_step (parse (1 ∷ 0 ∷ 0 ∷ 6 ∷ 0 ∷ 8 ∷ 17 ∷ 34 ∷ [])) 7
    ≡ some (record { program = 1; step = 1; lo = 6; hi = 8 })
unfolding parse
library_step-parse_example =
    library_step-parse (1 ∷ 0 ∷ 0 ∷ 6 ∷ 0 ∷ 8 ∷ 17 ∷ 34 ∷ []) 0 6 8 1 refl (omega arith)
      (λ e. ground (arith, e))

-- A run loop that was away for a second.
abbrev late : Runner Machine
late = record {
  machine = machine;
  controller = idle_freeze;
  carry = 0;
  jitter = Jitter.init 284;
  running = true;
  full_speed = false;
  deadline = 20000;
  drawn = 0;
  readings = 0;
}

pump-IsOnSchedule_example :
    (r : Runner Machine) × (pump stepper ti59 (λ i. 0) (λ i. i) 7 true 1000000 late ≡ some r)
    × IsOnSchedule stepper ti59 (λ i. 0) (λ i. i) 1000000 r
pump-IsOnSchedule_example =
    pump-IsOnSchedule stepper ti59 (λ i. 0) (λ i. i) 1000000 late refl (omega arith)

-- Bank 1 with two program steps and data register 119.
abbrev small_card : CardDefinition
small_card = record {
  bank = 1;
  protect = true;
  partition_max_step = none;
  program_steps = (0, 76) ∷ (1, 11) ∷ [];
  registers = record { reg_num = 119; nibbles = λ i. 3; is_hidden = false } ∷ [];
}

build_card_bank_lem_example :
    (header body : List ℕ) × (c : ℕ) × (build_card_bank small_card 60
      ≡ header ++ (0x10 ∷ body) ++ (c ∷ c ∷ []))
    × (length header ≡ 3)
    × (length body ≡ 240)
    × (c ≡ (low_sum header + byte_sum body) % 16)
build_card_bank_lem_example =
    build_card_bank_lem small_card 60 (omega arith, (omega arith, omega arith))
      ((λ i h. omega arith), omega arith)
