-- ===== src/Core/Cpu/Step.antt =====
-- `step()`: one instruction, from the printer countdown to the step boundary; and the debugger's
-- injected entry.
pub mod Laws
pub mod Waiting
use calc_u.Base.{
  ℕ, zero, suc, ◌+◌, ◌-◌, ◌*◌, ◌/◌, ◌%◌, Bool, true, false, not, ◌&&◌, ◌||◌, if◌then◌else◌, ◌==◌,
  any_bit, bit_and, bit_or, bit_xor, clear16, u16, u32,
}
use calc_u.Core.Cpu.State.{
  Cpu, Flags, Printer, Clock, StepBoundary, flag_word, step_dispatch_pc, idle_entry_pc,
}
use calc_u.Core.Cpu.Printer.{busy_tick}
use calc_u.Core.Cpu.FlagOps.{exec_flag}
use calc_u.Core.Cpu.Keyboard.{exec_key}
use calc_u.Core.Cpu.Control.{exec_control}
use calc_u.Core.Cpu.ExecAlu.{exec_alu}
use calc_u.Core.Cpu.Multiplex.{post_operation, step_weight}
use calc_u.Core.Cpu.Tracing.{begin_next_step, trace_post_step, snapshot_cpu}

-- The return value: the weight, the two marks, and the processor after the step.
pub record StepResult : Type 0 where
  pub cpu : Cpu
  pub weight : ℕ
  pub polled_hardware : Bool
  pub at_boundary : Bool

unfoldable pub tick_printer : Cpu → Cpu
unfolding busy_tick
tick_printer c =
    let (p, done) = busy_tick c.printer in
    record c {
      printer = p;
      flags = record (c.flags) { busy = if done then false else c.flags.busy };
    }

-- The digit counter, HOLD, and the one-cycle windows of EXT and Sout.
unfoldable pub advance_windows : Cpu → Cpu
advance_windows c = record c {
  digit = if c.digit == 0 then 15 else c.digit - 1;
  last_poll = false;
  ext = if c.flags.ext_valid then c.ext else 0;
  sout = if c.flags.io_valid then c.sout else λ i. 0;
  flags = record (c.flags) { hold = false; ext_valid = false; io_valid = false };
}

-- The part of `step()` above the decoding.
unfoldable pub prologue : Cpu → Cpu
unfolding tick_printer begin_next_step advance_windows
prologue c = advance_windows (begin_next_step (tick_printer c))

-- The decoding of what is no branch.
unfoldable pub execute : ℕ → Cpu → Cpu
unfolding exec_flag exec_key exec_control exec_alu
execute opcode c =
    let class = opcode / 256 % 16 in
    if class == 0
    then exec_flag opcode c
    else if class == 8
    then exec_key opcode c
    else if class == 10
    then exec_control opcode c
    else exec_alu opcode c

-- `!((flags ^ opcode) & FLG_COND)`
unfoldable pub branch_taken : ℕ → Cpu → Bool
branch_taken opcode c = not (any_bit (bit_xor (flag_word c.flags) opcode) 0x0800)

unfoldable pub branch_target : ℕ → ℕ → ℕ
branch_target opcode addr =
    let offs = opcode / 2 % 1024 in
    if any_bit opcode 0x0001 then u16 (addr + 65536 - offs) else u16 (addr + offs)

unfoldable pub exec_branch : ℕ → Cpu → Cpu
unfolding branch_taken branch_target
exec_branch opcode c =
    let d = record c { flags = record (c.flags) { jump = true } } in
    record d {
      addr = if branch_taken opcode d then branch_target opcode c.addr else u16 (c.addr + 1);
    }

-- HOLD, then a pending redirect, then the next address.
unfoldable pub next_address : Cpu → Cpu
next_address c =
    if c.flags.hold
    then c
    else if c.preg == 0
    then record c { addr = u16 (c.addr + 1) }
    else record c { addr = c.preg; preg = 0 }

-- The C indicator is driven.
abbrev pub indicator : Cpu → Bool
indicator c = if c.flags.idle then any_bit c.fa 0x4000 else not (c.fa == 0)

unfoldable pub count_ticks : ℕ → Cpu → Cpu
count_ticks w c = record c {
  clock = record {
    c_steps = if indicator c then u32 (c.clock.c_steps + 1) else c.clock.c_steps;
    poll_steps = u32 (c.clock.poll_steps + w);
    elapsed = (c.clock.elapsed + w) % 18446744073709551616;
  };
}

unfoldable pub trace_weight : ℕ → Cpu → Cpu
trace_weight w c = record c { trace = if c.trace.flags == 0 then c.trace else trace_post_step w c }

-- SET KR[1] latches the address that KR holds.
unfoldable pub latch_preg : Cpu → Cpu
latch_preg c =
    if any_bit c.kr 0x2
    then record c { preg = bit_or (c.kr / 16) (c.kr % 2 * 4096); kr = clear16 c.kr 0x2 }
    else c

unfoldable pub note_step_boundary : Cpu → Cpu × Bool
unfolding step_dispatch_pc
note_step_boundary c =
    let at_step = c.addr == step_dispatch_pc c.variant in
    if not at_step && not (c.addr == idle_entry_pc) then (c, false) else (
      record c {
        boundary = record {
          cpu = snapshot_cpu c;
          lib_exec_pc = c.lib.exec_pc;
          at_step = at_step;
          count = (c.boundary.count + 1) % 18446744073709551616;
        };
      },
      at_step,
    )

-- Weight, trace and clock at the end of either path.
unfoldable pub account : Cpu → Cpu
unfolding count_ticks trace_weight step_weight
account c = count_ticks (step_weight c) (trace_weight (step_weight c) c)

-- A branch: no address is added to it, and HOLD does not stop it.
unfoldable pub branch_step : Bool → Cpu → StepResult
branch_step was_poll d =
    let opcode = d.pending_opcode in
    let b = account (post_operation (exec_branch opcode d)) in
    let noted = note_step_boundary b in
    record {
      cpu = noted.0;
      weight = step_weight b;
      polled_hardware =
          was_poll
          && branch_taken opcode (record d { flags = record (d.flags) { jump = true } })
          && any_bit opcode 0x0001;
      at_boundary = noted.1;
    }

-- Any other instruction.
unfoldable pub plain_step : Cpu → StepResult
plain_step d =
    let b = account (next_address (post_operation (execute d.pending_opcode d))) in
    let noted = note_step_boundary (latch_preg b) in
    record { cpu = noted.0; weight = step_weight b; polled_hardware = false; at_boundary = noted.1 }

unfoldable pub step : Cpu → StepResult
step c =
    let d = prologue c in
    if any_bit d.pending_opcode 0x1000 then branch_step c.last_poll d else plain_step d

-- The state after `n` steps.
unfoldable pub steps : ℕ → Cpu → Cpu
steps zero c = c
steps (suc n) c = steps n (step c).cpu

-- The rounds of the injection loop: whether the entry was reached, and the steps made.
unfoldable pub inject : ℕ → ℕ → ℕ → Cpu → Bool × ℕ × Cpu
inject zero done target c = (false, done, c)
inject (suc n) done target c =
    let d = (step (record c { ext = target; preg = target })).cpu in
    let rest = inject n (done + 1) target d in
    if d.addr == target then (true, done + 1, d) else rest

unfoldable pub run_debug_injected_program : ℕ → ℕ → Cpu → Bool × ℕ × Cpu
unfolding inject
run_debug_injected_program start max_steps c =
    inject max_steps 0 (start % 8192) (record c { flags = record (c.flags) { cond = true } })
