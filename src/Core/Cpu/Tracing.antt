-- ===== src/Core/Cpu/Tracing.antt =====
-- The trace ring, the breakpoints and `beginNextStep()`.
pub mod Laws
use calc_u.Base.{
  ℕ, zero, suc, ◌+◌, ◌-◌, ◌%◌, ◌/◌, ◌*◌, Bool, true, false, not, ◌&&◌, ◌||◌, if◌then◌else◌, ◌==◌,
  ltb, leb, upd, List, [], ◌∷◌, any_bit, u32, u8, slice,
}
use calc_u.Core.Cpu.State.{
  Cpu, Flags, Trace, Frame, StepBoundary, flag_word, step_dispatch_pc, idle_entry_pc,
}
use calc_u.Core.Cpu.Multiplex.{display_on, positions_driven}
use calc_u.Core.Rom.{read}

abbrev pub trace_regs_light : ℕ
trace_regs_light = 2

abbrev pub trace_regs_full : ℕ
trace_regs_full = 4

abbrev pub trace_breakpoints : ℕ
trace_breakpoints = 8

abbrev pub frame_ring_size : ℕ
frame_ring_size = 1024

-- `std::lower_bound`, then insertion or removal at that place.
unfoldable pub add_breakpoint : ℕ → List ℕ → List ℕ
add_breakpoint pc [] = pc ∷ []
add_breakpoint pc (b ∷ bs) =
    if ltb b pc then b ∷ add_breakpoint pc bs else if b == pc then b ∷ bs else pc ∷ b ∷ bs

unfoldable pub remove_breakpoint : ℕ → List ℕ → List ℕ
remove_breakpoint pc [] = []
remove_breakpoint pc (b ∷ bs) =
    if ltb b pc then b ∷ remove_breakpoint pc bs else if b == pc then bs else b ∷ bs

unfoldable pub has_breakpoint : ℕ → List ℕ → Bool
has_breakpoint pc [] = false
has_breakpoint pc (b ∷ bs) = if ltb b pc then has_breakpoint pc bs else b == pc

unfoldable pub consume_breakpoint_hit : Trace → Bool × Trace
consume_breakpoint_hit t = if t.hit then (true, record t { hit = false }) else (false, t)

-- The light registers of a frame, from the processor.
abbrev pub light_frame : Cpu → Frame → Frame
light_frame c f = record f {
  kr = c.kr;
  sr = c.sr;
  fa = c.fa;
  fb = c.fb;
  cpu_flags = flag_word c.flags;
  r5 = c.r5;
}

-- The full registers, but for the digit and the display state.
abbrev pub full_frame : Cpu → Frame → Frame
full_frame c f = record f {
  regs = c.regs;
  scom = c.scom;
  sout = c.sout;
  ext = c.ext;
  preg = c.preg;
  flags = flag_word c.flags;
  lib_addr = c.lib.addr;
  lib_addr_read_pos = c.lib.read_pos;
  digit = c.digit;
  post_digit = c.digit;
  reg_addr = c.reg_addr;
  ram_addr = c.ram_addr;
  ram_op = c.ram_opcode;
}

abbrev pub display_frame : Cpu → Frame → Frame
display_frame c f = record f { display_on = display_on c; max_digit_decay = positions_driven c }

-- The previous frame brought to the state after its instruction.
unfoldable pub patch_frame : ℕ → Cpu → Frame → Frame
patch_frame tf c f =
    let g = if any_bit tf 6 then record (light_frame c f) { post_digit = c.digit } else f in
    let h = if any_bit tf trace_regs_full then record (full_frame c g) { r5 = c.r5 } else g in
    display_frame c h

-- The frame of the instruction about to run.
unfoldable pub open_frame : ℕ → ℕ → Cpu → Frame → Frame
open_frame tf opcode c f =
    let g = record f { pc = c.addr; opcode = opcode } in
    let h = if any_bit tf 6 then display_frame c (light_frame c g) else g in
    if any_bit tf trace_regs_full then full_frame c h else h

-- A change of one ring slot.
abbrev pub with_slot : ℕ → (Frame → Frame) → Trace → Trace
with_slot i f t = record t {
  ring = upd t.ring (i % frame_ring_size) (f (t.ring (i % frame_ring_size)));
}

unfoldable pub trace_pre_step : ℕ → ℕ → Cpu → Trace → Trace
unfolding has_breakpoint open_frame
trace_pre_step tf opcode c t =
    let u = record t {
      hit =
          if any_bit tf trace_breakpoints && has_breakpoint c.addr t.breakpoints
          then true
          else t.hit;
    } in
    with_slot t.head (open_frame tf opcode c) u

unfoldable pub trace_post_step : ℕ → Cpu → Trace
trace_post_step weight c =
    let t = c.trace in
    record (with_slot t.head
      (λ f. record f {
        seqno = t.seqno;
        digit = c.digit;
        post_digit = c.digit;
        cycle_weight = u8 weight;
      })
      t) { seqno = u32 (t.seqno + 1); head = u32 (t.head + 1) }

-- COND comes back at the first instruction after a chain of branches.
abbrev pub restore_cond : ℕ → Cpu → Cpu
restore_cond opcode c =
    let back = not (any_bit opcode 0x1000) && c.flags.jump in
    record c {
      pending_opcode = opcode;
      flags = record (c.flags) {
        jump = if back then false else c.flags.jump;
        cond = if back then true else c.flags.cond;
      };
    }

unfoldable pub begin_next_step : Cpu → Cpu
unfolding patch_frame trace_pre_step
begin_next_step c =
    let opcode = read c.rom c.addr in
    let d = restore_cond opcode c in
    let tf = c.trace.flags in
    let patched =
      if ltb 0 c.trace.head
      then with_slot (c.trace.head - 1) (patch_frame tf d) d.trace
      else d.trace in
    record d { trace = if tf == 0 then d.trace else trace_pre_step tf opcode d patched }

unfoldable pub snapshot_cpu : Cpu → Frame
snapshot_cpu c = record {
  seqno = 0;
  pc = c.addr;
  opcode = read c.rom c.addr;
  digit = c.digit;
  post_digit = c.digit;
  cycle_weight = 0;
  kr = c.kr;
  sr = c.sr;
  fa = c.fa;
  fb = c.fb;
  cpu_flags = flag_word c.flags;
  r5 = c.r5;
  regs = c.regs;
  scom = c.scom;
  sout = c.sout;
  ext = c.ext;
  preg = c.preg;
  flags = flag_word c.flags;
  lib_addr = c.lib.addr;
  reg_addr = c.reg_addr;
  ram_addr = c.ram_addr;
  ram_op = c.ram_opcode;
  lib_addr_read_pos = c.lib.read_pos;
  display_on = display_on c;
  max_digit_decay = positions_driven c;
}

-- The frames that were lost to the ring, those that are handed over, and the cursor after them.
pub record Drained : Type 0 where
  pub frames : List Frame
  pub lost : ℕ
  pub trace : Trace

-- The ring slots from `from` on.
ring_slice : Trace → ℕ → ℕ → List Frame
ring_slice t from zero = []
ring_slice t from (suc n) = t.ring (from % frame_ring_size) ∷ ring_slice t (u32 (from + 1)) n

-- `head - m_diskCursor` in `uint32_t`.
abbrev pub behind : Trace → ℕ
behind t = u32 (t.head + 4294967296 - t.disk_cursor)

-- The cursor moved up to the oldest frame that is still in the ring.
abbrev pub catch_up : Trace → Trace
catch_up t = record t {
  disk_cursor =
      if ltb frame_ring_size (behind t)
      then u32 (t.head + 4294967296 - frame_ring_size)
      else t.disk_cursor;
}

unfoldable pub drain_cpu_frames : ℕ → Trace → Drained
unfolding ring_slice
drain_cpu_frames max t =
    let u = catch_up t in
    let count = if ltb (behind u) max then behind u else max in
    if max == 0 then record { frames = []; lost = 0; trace = t } else record {
      frames = ring_slice u u.disk_cursor count;
      lost = if ltb frame_ring_size (behind t) then behind t - frame_ring_size else 0;
      trace = record u { disk_cursor = u32 (u.disk_cursor + count) };
    }

-- The newest frames of the ring, which stay in it.
unfoldable pub read_cpu_frames : ℕ → Trace → List Frame
unfolding ring_slice
read_cpu_frames max t =
    let count = if ltb t.head max then t.head else max in
    if max == 0 || t.head == 0 then [] else ring_slice t ((t.head - count) % frame_ring_size) count

unfoldable pub set_trace_flags : ℕ → Trace → Trace
set_trace_flags f t = record t { flags = f }

unfoldable pub clear_breakpoints : Trace → Trace
clear_breakpoints t = record t { breakpoints = [] }
