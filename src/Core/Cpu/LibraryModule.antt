-- ===== src/Core/Cpu/LibraryModule.antt =====
-- The library module: IN LIB, OUT LIB_PC, IN LIB_PC, IN LIB_HIGH, and `loadLibrary`.
-- The image is an array of 5000 bytes; beyond it stands what a read out of bounds would find.
pub mod Laws
use calc_u.Base.{
  ℕ, ◌+◌, ◌-◌, ◌*◌, ◌/◌, ◌%◌, ◌^◌, Bool, true, false, not, if◌then◌else◌, ◌==◌, ltb, bit_and, u16,
  min,
}
use calc_u.Core.Alu.{Nibbles}
use calc_u.Core.Cpu.State.{Cpu, Library, Flags, lib_exec_pc_none, lib_exec_fetch_pc}

abbrev pub image_bytes : ℕ
image_bytes = 5000

unfoldable pub load_library : Nibbles → ℕ → Library → Library
load_library bytes count l = record l {
  image = λ j. if not (ltb j image_bytes) then l.image j else if ltb j count then bytes j else 0;
  exec_pc = lib_exec_pc_none;
}

-- The byte for EXT, and the counter moved on. The latch follows the fetches of the interpreter.
unfoldable pub in_lib : Cpu → Cpu
in_lib c =
    let l = c.lib in
    record c {
      ext = u16 (l.image l.addr * 16);
      flags = record (c.flags) { ext_valid = true };
      lib = record l {
        addr = u16 (l.addr + 1) % image_bytes;
        exec_pc = if c.addr == lib_exec_fetch_pc c.variant then l.addr else l.exec_pc;
      };
    }

-- One decimal digit into the top of the counter.
unfoldable pub push_digit : ℕ → Library → Library
push_digit d l = record l {
  addr = u16 (l.addr / 10 + d * 1000);
  read_pos = ((if not l.was_writing then 0 else l.read_pos) + 1) % 4;
  was_writing = true;
}

unfoldable pub out_lib_pc : Cpu → Cpu
unfolding push_digit
out_lib_pc c = record c { lib = push_digit (c.kr / 16 % 16) c.lib }

-- The digit at the read position, and the position moved on.
unfoldable pub pull_digit : Library → ℕ × Library
pull_digit l =
    let pos = if l.was_writing then 0 else l.read_pos in
    (l.addr / 10 ^ pos % 10, record l { read_pos = (pos + 1) % 4; was_writing = false })

unfoldable pub in_lib_pc : Cpu → Cpu
unfolding pull_digit
in_lib_pc c =
    let (d, l) = pull_digit c.lib in
    record c { ext = d * 16; lib = l; flags = record (c.flags) { ext_valid = true } }

unfoldable pub in_lib_high : Cpu → Cpu
in_lib_high c = record c {
  ext = bit_and (c.lib.image c.lib.addr) 0xF0;
  flags = record (c.flags) { ext_valid = true };
}

unfoldable pub exec_library : ℕ → Cpu → Cpu
unfolding in_lib out_lib_pc in_lib_pc in_lib_high
exec_library opcode c =
    let sub = opcode / 16 % 16 in
    if sub == 0
    then in_lib c
    else if sub == 1
    then out_lib_pc c
    else if sub == 2
    then in_lib_pc c
    else if sub == 3
    then in_lib_high c
    else c
