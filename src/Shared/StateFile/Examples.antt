-- ===== src/Shared/StateFile/Examples.antt =====
-- State files' lines on which the theorems are applied.
use calc_u.Base.{◌*◌, ◌≤◌, ◌≡◌, refl, false, List, [], ◌∷◌, some, pos, arith}
use calc_u.Core.Cpu.Printer.{text}
use calc_u.Core.Cpu.State
use calc_u.Core.Machine.{Machine, init}
use calc_u.Core.Machine.Memory.{read_program_step, partition_program_regs}
use calc_u.Shared.Model.{ti58, info}
use calc_u.Shared.StateFile.{LoadStateResult}
use calc_u.Shared.StateFile.Lines.{program_lines, parse_partition}
use calc_u.Shared.StateFile.Listing.{Line, labelled, going_on, gap, print_lines}
use calc_u.Shared.StateFile.Listing.Laws.{program_lines-print_lines}
use calc_u.Shared.StateFile.Program.{parse_partition-set}
use calc_u.Shared.StateApplier.{apply_state, set_partition}

-- LBL A, a gap, R/S at step 10 with its label, and RST behind it.
abbrev listing : List Line
listing = going_on 76 (11 ∷ []) ∷ gap ∷ labelled 10 91 (text "R/S") ∷ going_on 81 [] ∷ []

-- The printed lines, as they stand in a file.
listing_lines : print_lines listing ≡ text "76 11" ∷ text "..." ∷ text "010 91 R/S" ∷ text "81" ∷ []
listing_lines = refl

file : LoadStateResult
file = record {
  partition_max_step = 479;
  partition_was_explicit = false;
  program_steps = (program_lines 479 (print_lines listing) (0, [])).1;
  registers = [];
}

program_lines-print_lines_example :
    ((program_lines 479 (print_lines listing) (0, [])).1
      ≡ (0, 76) ∷ (1, 11) ∷ (10, 91) ∷ (11, 81) ∷ [])
    × ((m' : Machine) × (apply_state file ti58 (init State.ti58) ≡ some m')
        × (read_program_step (pos 11) m'.cpu ≡ some 81))
unfolding file info
program_lines-print_lines_example =
    program_lines-print_lines 479 listing file ti58 (init State.ti58) 11
      (
        (omega arith, (omega arith, omega arith)),
        (
          omega arith,
          ((omega arith, omega arith, omega arith), ((omega arith, omega arith), omega arith)),
        ),
      )
      refl refl (omega arith)

parse_partition-set_example :
    (79 ≤ 239)
    × (239 ≤ 959)
    × (partition_program_regs (set_partition 239 (init State.ti59)).cpu * 8 ≡ 240)
unfolding parse_partition
parse_partition-set_example = parse_partition-set (text "200.60") 239 (init State.ti59) refl
