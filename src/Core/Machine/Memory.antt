-- ===== src/Core/Machine/Memory.antt =====
-- Core/TI59Machine.cpp: the user's view of the RAM (program steps, data registers, whole registers,
-- the partition), under the machine's lock. A failed assertion of the RAM is `none`; an `int`
-- argument is an integer, and the index -1 is `none`.
pub mod Laws
use calc_u.Base.{
  ℕ, zero, suc, ◌+◌, ◌-◌, ◌*◌, ◌/◌, ◌%◌, Bool, ◌&&◌, Option, none, some, if◌then◌else◌, ltb, leb,
  ◌==◌, ℤ, pos, negsuc, ◌>>=◌, map_some, min,
}
use calc_u.Core.Alu.{Nibbles}
use calc_u.Core.Ram.{Ram, total_regs, read, write, read_reg, write_reg, serialise, deserialise}
use calc_u.Core.Cpu.State.{Cpu, has_constant_memory}
use calc_u.Core.Cpu.Reset.{set_scom_nibble}

abbrev pub with_ram : Cpu → Ram → Cpu
with_ram c r = record c { ram = r }

-- The steps that the physical RAM holds.
abbrev pub total_steps : ℕ
total_steps = 960

-- Keycodes are two decimal digits: units, then tens.
unfoldable pub store_program_step : ℕ → ℕ → Ram → Option Ram
store_program_step addr keycode m = do
  m' ← write m (addr / 8) (addr % 8 * 2) (keycode % 10)
  write m' (addr / 8) (addr % 8 * 2 + 1) (keycode / 10)

-- The `n` steps from `addr` on.
unfoldable pub store_program : ℕ → ℕ → (ℕ → ℕ) → Ram → Option Ram
unfolding store_program_step
store_program zero addr bytes m = some m
store_program (suc n) addr bytes m = do
  m' ← store_program_step addr (bytes addr) m
  store_program n (addr + 1) bytes m'

unfoldable pub write_program : (ℕ → ℕ) → ℤ → Cpu → Option Cpu
unfolding store_program
write_program bytes (pos count) c =
    map_some (with_ram c) (store_program (min count total_steps) 0 bytes c.ram)
write_program bytes (negsuc k) c = some c

unfoldable pub write_program_step : ℤ → ℕ → Cpu → Option Cpu
unfolding store_program_step
write_program_step (pos addr) keycode c =
    if ltb addr total_steps
    then map_some (with_ram c) (store_program_step addr keycode c.ram)
    else some c
write_program_step (negsuc k) keycode c = some c

unfoldable pub read_program_step : ℤ → Cpu → Option ℕ
read_program_step (pos addr) c = if leb total_steps addr then some 0 else do
  tens ← read c.ram (addr / 8) (addr % 8 * 2 + 1)
  units ← read c.ram (addr / 8) (addr % 8 * 2)
  some ((tens * 10 + units) % 256)
read_program_step (negsuc k) c = some 0

-- The ROM's highest register number, or the default before it has booted.
unfoldable pub data_reg_count : Cpu → ℕ
data_reg_count c =
    let top = c.scom 13 5 * 100 + c.scom 13 4 * 10 + c.scom 13 3 in
    if top == 0 then if has_constant_memory c.variant then 60 else c.ram.max_regs else top + 1

-- Data registers count down from the top of the RAM.
unfoldable pub data_reg_ram_index : ℤ → Cpu → Option ℕ
unfolding data_reg_count
data_reg_ram_index (pos reg) c =
    let idx = data_reg_count c - 1 - reg in
    if ltb reg (data_reg_count c) && ltb idx c.ram.max_regs then some idx else none
data_reg_ram_index (negsuc k) c = none

unfoldable pub write_data_register : ℤ → Nibbles → Cpu → Option Cpu
unfolding data_reg_ram_index
write_data_register reg src c = elim (data_reg_ram_index reg c) [
  | none ↦ some c
  | some idx ↦ map_some (with_ram c) (write_reg c.ram idx src)
]

-- The sixteen nibbles that `readDataReg` decodes; `none` of the inner kind is its 0.0.
unfoldable pub read_data_register : ℤ → Cpu → Option (Option Nibbles)
unfolding data_reg_ram_index
read_data_register reg c = elim (data_reg_ram_index reg c) [
  | none ↦ some none
  | some idx ↦ map_some some (read_reg c.ram idx)
]

unfoldable pub copy_ram_reg : ℤ → Cpu → Option Nibbles
copy_ram_reg (pos reg) c = if leb total_regs reg then some (λ i. 0) else read_reg c.ram reg
copy_ram_reg (negsuc k) c = some (λ i. 0)

unfoldable pub write_ram_reg : ℤ → Nibbles → Cpu → Option Cpu
write_ram_reg (pos reg) src c =
    if leb total_regs reg then some c else map_some (with_ram c) (write_reg c.ram reg src)
write_ram_reg (negsuc k) src c = some c

unfoldable pub partition_program_regs : Cpu → ℕ
partition_program_regs c = c.scom 9 0 * 10

-- What OP 17 writes: the tens of program registers, as a nibble and as two decimal digits.
unfoldable pub set_partition_program_regs : ℕ → Cpu → Cpu
unfolding set_scom_nibble
set_partition_program_regs regs c =
    let n = regs / 10 in
    set_scom_nibble 13 9 (n / 10) (set_scom_nibble 13 8 (n % 10) (set_scom_nibble 9 0 n c))

unfoldable pub inserted_module_number : Cpu → ℕ
inserted_module_number c = c.scom 9 4 * 10 + c.scom 9 3

unfoldable pub serialise_ram : Cpu → ℕ → ℕ
unfolding serialise
serialise_ram c = serialise c.ram

unfoldable pub deserialise_ram : (ℕ → ℕ) → Cpu → Cpu
unfolding deserialise
deserialise_ram src c = with_ram c (deserialise c.ram src)
