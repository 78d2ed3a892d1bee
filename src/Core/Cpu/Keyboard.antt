-- ===== src/Core/Cpu/Keyboard.antt =====
-- Opcodes 0x08xx, the keyboard scan, and the key matrix.
pub mod Laws
use calc_u.Base.{
  ℕ, zero, suc, ◌+◌, ◌-◌, ◌*◌, ◌/◌, ◌%◌, ◌^◌, Bool, true, false, not, ◌&&◌, if◌then◌else◌, ◌==◌,
  ltb, upd, bit_and, bit_or, bit_xor, any_bit, clear8, u8, u16, shr,
}
use calc_u.Core.Cpu.State.{Cpu, Flags, clear_cond_if, clear_cond}

-- A row or column below 0 does not occur: both come from a matrix code.
unfoldable pub press_key : ℕ → ℕ → Cpu → Cpu
press_key row col c =
    if ltb col 16 && ltb row 7
    then record c { key = upd c.key col (bit_or (c.key col) (2 ^ row)) }
    else c

unfoldable pub release_key : ℕ → ℕ → Cpu → Cpu
release_key row col c =
    if ltb col 16 && ltb row 7
    then record c { key = upd c.key col (clear8 (c.key col) (2 ^ row)) }
    else c

-- The K lines that the opcode asks for.
unfoldable pub line_mask : ℕ → ℕ
line_mask opcode = bit_xor (bit_or (bit_and opcode 0x07) (bit_and (shr opcode 1) 0x78)) 0x7F

-- Two keys at once count as none.
unfoldable pub reject_chord : ℕ → ℕ
reject_chord kmask = if any_bit kmask (kmask - 1) then 0 else kmask

-- `while (!(m2 & 1)) { bit++; m2 >>= 1; }`, for at most `fuel` rounds.
unfoldable pub lowest_bit : ℕ → ℕ → ℕ → ℕ
lowest_bit zero bit m2 = bit
lowest_bit (suc fuel) bit m2 =
    let next = lowest_bit fuel (bit + 1) (m2 / 2) in if m2 % 2 == 0 then next else bit

-- The seven lines need six rounds at most.
abbrev pub line_fuel : ℕ
line_fuel = 7

-- `{row, column}` as KR holds it.
abbrev pub key_code : ℕ → ℕ → ℕ
key_code digit bit = u16 (bit_or (digit * 16) (bit_and (bit * 256) 0x0700))

unfoldable pub exec_key : ℕ → Cpu → Cpu
unfolding line_mask reject_chord lowest_bit
exec_key opcode c =
    let row = c.key c.digit in
    let kmask = reject_chord (bit_and (line_mask opcode) row) in
    let pressed = any_bit row kmask in
    let polled = record c { last_poll = true } in
    if any_bit opcode 0x0008
    then clear_cond_if pressed polled
    else if pressed
    then record (clear_cond polled) { kr = key_code c.digit (lowest_bit line_fuel 0 kmask) }
    else if not (c.digit == 0)
    then record polled { flags = record (c.flags) { hold = true } }
    else polled

-- The printer's buttons and sense lines are keys too.
unfoldable pub set_key : ℕ → ℕ → Bool → Cpu → Cpu
set_key col row on c = record c {
  key = upd c.key col (if on then bit_or (c.key col) (2 ^ row) else clear8 (c.key col) (2 ^ row));
}
