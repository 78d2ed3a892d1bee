-- ===== src/Core/Cpu/Multiplex.antt =====
-- `postOperation()` and `getStepWeight()`: the display multiplex, one strobe an instruction.
use calc_u.Base.{
  ℕ, zero, suc, ◌+◌, ◌-◌, ◌%◌, ◌/◌, ◌^◌, Bool, true, false, not, ◌&&◌, ◌||◌, if◌then◌else◌, ◌==◌,
  leb, upd, bit_or, clear16, u32,
}
use calc_u.Core.Alu.{ra, rb}
use calc_u.Core.Cpu.State.{Cpu, Display, has_constant_memory}

-- 4 in IDLE mode, but on the TI-58C.
unfoldable pub step_weight : Cpu → ℕ
step_weight c = if c.flags.idle && not (has_constant_memory c.variant) then 4 else 1

-- The position that is strobed after the instruction.
abbrev pub strobe_digit : ℕ → ℕ
strobe_digit digit = if digit == 0 then 15 else digit - 1

-- The zero-suppression chain before its decision at display index `idx`.
unfoldable pub zero_before : Cpu → ℕ → ℕ → Bool
zero_before c idx b =
    let running = if idx == 11 then true else c.display.zero_running in
    let dot = leb 2 c.r5 && leb c.r5 13 && c.r5 - 2 == idx in
    let blank = if idx == 1 || dot || leb 8 b then false else running in
    if idx == 0 then true else blank

abbrev pub is_suppressed : Bool → ℕ → ℕ → Bool
is_suppressed blank a b = b == 7 || b == 3 || (leb b 4 && blank && a == 0)

abbrev pub emits_glyph : ℕ → Bool
emits_glyph b = b == 0 || b == 1 || b == 5 || b == 6 || b == 8 || b == 9

-- One strobe of display index `idx`, at position `idx + 2`.
unfoldable pub strobe : ℕ → Cpu → Display
unfolding zero_before step_weight
strobe idx c =
    let d = c.display in
    let a = c.regs ra (idx + 2) % 16 in
    let b = c.regs rb (idx + 2) % 16 in
    let blank = zero_before c idx b in
    let suppressed = is_suppressed blank a b in
    let lit = not suppressed && emits_glyph b in
    let dot = c.r5 == idx + 2 in
    let w = step_weight c in
    record d {
      suppressed_mask =
          if suppressed
          then bit_or d.suppressed_mask (2 ^ idx)
          else clear16 d.suppressed_mask (2 ^ idx);
      zero_running = if not suppressed && leb b 1 && not (a == 0) then false else blank;
      segments_a = if lit then upd d.segments_a idx a else d.segments_a;
      segments_b = if lit then upd d.segments_b idx b else d.segments_b;
      lit_ticks = if lit then upd d.lit_ticks idx (u32 (d.lit_ticks idx + w)) else d.lit_ticks;
      dp_ticks = if dot then upd d.dp_ticks idx (u32 (d.dp_ticks idx + w)) else d.dp_ticks;
      driven_this = if lit || dot then bit_or d.driven_this (2 ^ idx) else d.driven_this;
    }

-- The end of a revolution of the digit counter.
abbrev pub close_revolution : Bool → Display → Display
close_revolution t d = record d {
  driven_last = if t then d.driven_this else d.driven_last;
  driven_this = if t then 0 else d.driven_this;
}

unfoldable pub post_operation : Cpu → Cpu
unfolding strobe
post_operation c =
    let s = strobe_digit c.digit in
    let d = if c.flags.idle && leb 2 s && leb s 13 then strobe (s - 2) c else c.display in
    record c { display = close_revolution (c.digit == 0) d }

-- The number of bits set among the lowest `n`.
pop_count : ℕ → ℕ → ℕ
pop_count zero x = 0
pop_count (suc n) x = x % 2 + pop_count n (x / 2)

unfoldable pub display_on : Cpu → ℕ
display_on c = if c.display.driven_last == 0 then 0 else 1

unfoldable pub positions_driven : Cpu → ℕ
unfolding pop_count
positions_driven c = pop_count 16 c.display.driven_last
