-- ===== src/Core/Cpu/Reset.antt =====
-- `reset()`, `loadConstants()`, the printer's sense lines, and the settings of the host.
use calc_u.Base.{ℕ, ◌/◌, ◌%◌, ◌*◌, ◌+◌, Bool, true, false, if◌then◌else◌, ltb, leb, upd, none, min}
use calc_u.Core.Alu.{Nibbles}
use calc_u.Core.Cpu.State.{
  MachineVariant, Cpu, cond_only, Card, Printer, Display, lib_exec_pc_none, has_constant_memory,
}
use calc_u.Core.Cpu.Printer.{flush_pending_if_active, text}
use calc_u.Core.Cpu.Keyboard.{set_key}

unfoldable pub reset_card : Card → Card
reset_card k = record k {
  present = false;
  waiting = false;
  full = λ j. 0;
  bank = λ j. 0;
  ptr = 0;
  mode = 0;
  last_written = none;
}

unfoldable pub reset_printer : Printer → Printer
unfolding flush_pending_if_active
reset_printer p =
    record (flush_pending_if_active (record p { buf = λ i. text " "; ptr = 0; ready = false })) {
      busy_cycles = 0;
    }

unfoldable pub reset_display : Display
reset_display = record {
  segments_a = λ i. 0;
  segments_b = λ i. 0;
  lit_ticks = λ i. 0;
  dp_ticks = λ i. 0;
  suppressed_mask = 0;
  zero_running = true;
  driven_this = 0;
  driven_last = 0;
}

unfoldable pub reset : Cpu → Cpu
unfolding reset_card reset_printer reset_display
reset c = record c {
  regs = λ q i. 0;
  scom = λ r i. 0;
  sout = λ i. 0;
  key = λ i. 0;
  kr = 0;
  sr = 0;
  fa = 0;
  fb = 0;
  ext = 0;
  preg = 0;
  lib = record (c.lib) { addr = 0; read_pos = 0; was_writing = false; exec_pc = lib_exec_pc_none };
  boundary = record (c.boundary) { count = 0 };
  r5 = 0;
  digit = 0;
  ram_addr = 0;
  ram_opcode = 0;
  reg_addr = 0;
  addr = 0;
  flags = cond_only;
  clock = record (c.clock) { elapsed = 0 };
  display = reset_display;
  card = reset_card c.card;
  printer = reset_printer c.printer;
}

-- Row-major, 64 rows of 16.
unfoldable pub load_constants : Nibbles → ℕ → Cpu → Cpu
load_constants bytes count c = record c {
  constant =
      λ r i. if ltb (r * 16 + i) (min count 1024) then bytes (r * 16 + i) else c.constant r i;
}

-- A keycode of the constant ROM, 0 out of range.
unfoldable pub rom_keycode : ℕ → Cpu → ℕ
rom_keycode index c =
    if leb 384 index
    then 0
    else let row = c.constant (16 + index / 8) in
      (row (index % 8 * 2 + 1) * 10 + row (index % 8 * 2)) % 256

unfoldable pub press_printer_print : Bool → Cpu → Cpu
unfolding set_key
press_printer_print on c = set_key 12 2 on c

unfoldable pub press_printer_adv : Bool → Cpu → Cpu
unfolding set_key
press_printer_adv on c = set_key 12 0 on c

unfoldable pub set_printer_trace : Bool → Cpu → Cpu
unfolding set_key
set_printer_trace on c = set_key 15 2 on c

unfoldable pub set_printer_connected : Bool → Cpu → Cpu
unfolding set_key
set_printer_connected on c = set_key (if has_constant_memory c.variant then 10 else 0) 2 on c

unfoldable pub set_card_switch_col : ℕ → Cpu → Cpu
set_card_switch_col col c = record c { card = record (c.card) { switch_col = col } }

unfoldable pub set_machine_variant : MachineVariant → Cpu → Cpu
set_machine_variant v c = record c { variant = v }

unfoldable pub set_debug_level : ℕ → Cpu → Cpu
set_debug_level level c = record c { debug = record (c.debug) { level = level } }

unfoldable pub set_scom_nibble : ℕ → ℕ → ℕ → Cpu → Cpu
set_scom_nibble row col v c = record c { scom = upd c.scom row (upd (c.scom row) col (v % 16)) }
