-- ===== src/Core/Machine/Laws.antt =====
-- The weight of a step, and the key matrix after a reset.
use calc_u.Base.{
  ℕ, ◌+◌, ◌≡◌, refl, ◌∙◌, Bool, true, false, ◌&&◌, if◌then◌else◌, ltb, ◌==◌, arith, bit_or, any_bit,
  upd, clear8,
}
use calc_u.Core.Cpu.State.{Cpu, MachineVariant, has_constant_memory, ti59, ti58, ti58c}
use calc_u.Core.Cpu.Multiplex.{step_weight}
use calc_u.Core.Cpu.Reset
use calc_u.Core.Cpu.Keyboard.{press_key, set_key}
use calc_u.Core.Cpu.Step
use calc_u.Core.Cpu.Step.{branch_step, plain_step, prologue}
use calc_u.Core.Stepper.{IsWeight, Stepper}
use calc_u.Core.Machine.{Machine, step, reset, card_switch_col}

step_weight-IsWeight : (c : Cpu) → IsWeight (step_weight c)
unfolding step_weight
step_weight-IsWeight c = ground arith

branch-IsWeight : (b : Bool) (d : Cpu) → IsWeight (branch_step b d).weight
unfolding branch_step
branch-IsWeight b d = step_weight-IsWeight _

plain-IsWeight : (d : Cpu) → IsWeight (plain_step d).weight
unfolding plain_step
plain-IsWeight d = step_weight-IsWeight _

if-IsWeight :
    (b : Bool) (r s : Step.StepResult)
    → IsWeight r.weight
    → IsWeight s.weight
    → IsWeight (if b then r else s).weight
if-IsWeight true r s h k = h
if-IsWeight false r s h k = k

cpu-IsWeight : (c : Cpu) → IsWeight (Step.step c).weight
unfolding Step.step
cpu-IsWeight c =
    let d = prologue c in
    if-IsWeight (any_bit d.pending_opcode 0x1000) (branch_step c.last_poll d) (plain_step d)
      (branch-IsWeight c.last_poll d) (plain-IsWeight d)

-- A step of the machine weighs 1 to 4 cycles.
pub step-IsWeight : (m : Machine) → IsWeight (step m).0.weight
unfolding step
step-IsWeight m = cpu-IsWeight m.cpu

-- The machine as the run loops see it.
abbrev pub stepper : Stepper Machine
stepper = record { step = step; pc = λ m. m.cpu.addr; weight_lem = step-IsWeight }

-- The key matrix right after a reset: the card switch, and the printer's two lines as its
-- switches say.
abbrev pub switches : MachineVariant → Bool → Bool → ℕ → ℕ
switches v connected trace j =
    (if j == card_switch_col v then 16 else 0)
    + (if connected && (j == (if has_constant_memory v then 10 else 0)) then 4 else 0)
    + (if trace && (j == 15) then 4 else 0)

-- The same matrix as the operations of a reset build it.
abbrev built : MachineVariant → Bool → Bool → ℕ → ℕ
built v connected trace =
    let slot = card_switch_col v in
    let sense = if has_constant_memory v then 10 else 0 in
    let one = upd (λ i. 0) slot 16 in
    let set : Bool → ℕ → ℕ = λ on old. if on then bit_or old 4 else clear8 old 4 in
    let two = upd one sense (set connected (one sense)) in upd two 15 (set trace (two 15))

built_lem :
    (v : MachineVariant) (connected trace : Bool) (j : ℕ)
    → built v connected trace j ≡ switches v connected trace j
unfolding card_switch_col
built_lem ti59 true true j = ground arith
built_lem ti59 true false j = ground arith
built_lem ti59 false true j = ground arith
built_lem ti59 false false j = ground arith
built_lem ti58 true true j = ground arith
built_lem ti58 true false j = ground arith
built_lem ti58 false true j = ground arith
built_lem ti58 false false j = ground arith
built_lem ti58c true true j = ground arith
built_lem ti58c true false j = ground arith
built_lem ti58c false true j = ground arith
built_lem ti58c false false j = ground arith

card_switch_col-lt : (v : MachineVariant) → ltb (card_switch_col v) 16 ≡ true
unfolding card_switch_col
card_switch_col-lt ti59 = refl
card_switch_col-lt ti58 = refl
card_switch_col-lt ti58c = refl

reset-built :
    (m : Machine) (j : ℕ)
    → (reset m).cpu.key j ≡ built m.cpu.variant m.printer_connected m.printer_trace j
unfolding reset Reset.reset press_key Reset.set_printer_connected Reset.set_printer_trace set_key
    card_switch_col
reset-built m j = rw (card_switch_col-lt m.cpu.variant) refl

-- A reset releases every key; the card switch stands at absent, and the printer's connection and
-- its TRACE latch are as the host left them.
pub reset-key :
    (m : Machine) (j : ℕ)
    → (reset m).cpu.key j ≡ switches m.cpu.variant m.printer_connected m.printer_trace j
reset-key m j = reset-built m j ∙ built_lem m.cpu.variant m.printer_connected m.printer_trace j
