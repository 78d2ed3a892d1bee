-- ===== src/Core/Machine.antt =====
-- Core/TI59Machine.cpp and Core/TI59Machine.hpp: the machine that the hosts drive. It owns the
-- processor with its memories, and the two switches of the printer that outlive a reset. Every
-- operation takes the machine's lock, so each is one step on the state. `m_variant` is the
-- processor's, which the constructor sets and nothing changes.

pub mod Memory
pub mod Running
pub mod Panel
pub mod Laws
pub mod Loops
pub mod Breakpoints
mod Examples
use calc_u.Base.{
  ℕ, zero, suc, ◌+◌, ◌*◌, Bool, true, false, if◌then◌else◌, List, [], ◌∷◌, Option, none, some,
  map_some,
}
use calc_u.Core.Alu.{Nibbles, no_mask}
use calc_u.Core.Ram
use calc_u.Core.Rom
use calc_u.Core.Stepper.{Outcome}
use calc_u.Core.Cpu.State.{
  MachineVariant, ti59, ti58, ti58c, has_constant_memory, has_large_memory, Cpu, Flags, Card,
  Printer, Display, Frame, CodeLine, DebugEvent, blank_line, lib_exec_pc_none,
}
use calc_u.Core.Cpu.Printer.{text, drain_lines, drain_code_lines, printer_buffer_content}
use calc_u.Core.Cpu.Keyboard.{press_key, release_key}
use calc_u.Core.Cpu.CardReader.{insert_card, card_eject}
use calc_u.Core.Cpu.LibraryModule.{load_library}
use calc_u.Core.Cpu.Tracing.{
  add_breakpoint, remove_breakpoint, clear_breakpoints, consume_breakpoint_hit, set_trace_flags,
  begin_next_step, snapshot_cpu,
}
use calc_u.Core.Cpu.Step
use calc_u.Core.Cpu.Step.{run_debug_injected_program}
use calc_u.Core.Cpu.Reset.{
  load_constants, press_printer_print, press_printer_adv, set_machine_variant, set_card_switch_col,
  set_debug_level,
}
use calc_u.Core.Cpu.Reset

pub record Machine : Type 0 where
  pub cpu : Cpu
  pub printer_connected : Bool
  pub printer_trace : Bool

-- `libExecPC()` and the like read the processor; these are its states before any operation.
abbrev no_flags : Flags
no_flags = record {
  idle = false;
  hold = false;
  jump = false;
  recall = false;
  store = false;
  ram_op = false;
  ram_read = false;
  ram_write = false;
  ext_valid = false;
  io_valid = false;
  cond = false;
  busy = false;
}

abbrev pub blank_frame : Frame
blank_frame = record {
  seqno = 0;
  pc = 0;
  opcode = 0;
  digit = 0;
  post_digit = 0;
  cycle_weight = 0;
  kr = 0;
  sr = 0;
  fa = 0;
  fb = 0;
  cpu_flags = 0;
  r5 = 0;
  regs = λ q i. 0;
  scom = λ r i. 0;
  sout = λ i. 0;
  ext = 0;
  preg = 0;
  flags = 0;
  lib_addr = 0;
  lib_addr_read_pos = 0;
  reg_addr = 0;
  ram_addr = 0;
  ram_op = 0;
  display_on = 0;
  max_digit_decay = 0;
}

abbrev empty_card : Card
empty_card = record {
  switch_col = 10;
  present = false;
  waiting = false;
  full = λ i. 0;
  bank = λ i. 0;
  ptr = 0;
  mode = 0;
  last_written = none;
}

abbrev new_printer : Printer
new_printer = record {
  buf = λ i. text " ";
  code_buf = λ i. 0;
  ptr = 0;
  ready = false;
  busy_cycles = 0;
  pending = blank_line;
  has_pending = false;
  lines = [];
  code_lines = [];
}

abbrev dark_display : Display
dark_display = record {
  segments_a = λ i. 0;
  segments_b = λ i. 0;
  lit_ticks = λ i. 0;
  dp_ticks = λ i. 0;
  suppressed_mask = 0;
  zero_running = true;
  driven_this = 0;
  driven_last = 0;
}

-- The processor as its members' initialisers and its constructor leave it.
abbrev pub new_cpu : Cpu
new_cpu = record {
  rom = Rom.init;
  ram = Ram.init;
  variant = ti59;
  regs = λ q i. 0;
  scom = λ r i. 0;
  constant = λ r i. 0;
  kr = 0;
  sr = 0;
  fa = 0;
  fb = 0;
  ext = 0;
  preg = 0;
  sout = λ i. 0;
  flags = no_flags;
  r5 = 0;
  digit = 0;
  addr = 0;
  reg_addr = 0;
  ram_addr = 0;
  ram_opcode = 0;
  ram_mask = no_mask;
  key = λ i. 0;
  lib = record {
    addr = 0;
    read_pos = 0;
    was_writing = false;
    image = λ i. 0;
    exec_pc = lib_exec_pc_none;
  };
  card = empty_card;
  printer = new_printer;
  display = dark_display;
  clock = record { c_steps = 0; poll_steps = 0; elapsed = 0 };
  debug = record { level = 0; events = [] };
  trace = record {
    flags = 0;
    seqno = 0;
    ring = λ i. blank_frame;
    head = 0;
    disk_cursor = 0;
    breakpoints = [];
    hit = false;
  };
  pending_opcode = 0;
  last_poll = false;
  boundary = record { cpu = blank_frame; lib_exec_pc = 0; at_step = false; count = 0 };
}

unfoldable pub card_switch_col : MachineVariant → ℕ
card_switch_col v = elim v [ ti59 ↦ 10 | _ ↦ 7 ]

abbrev limit_ram : MachineVariant → Ram.Ram → Ram.Ram
limit_ram v m =
    if has_constant_memory v
    then Ram.set_limit m 64
    else if has_large_memory v
    then m
    else Ram.set_limit m 60

unfoldable pub init : MachineVariant → Machine
unfolding card_switch_col Ram.set_limit set_machine_variant set_card_switch_col press_key
    Reset.set_printer_connected
init v =
    let c = set_machine_variant v (record new_cpu { ram = limit_ram v Ram.init }) in
    let col = card_switch_col v in
    record {
      cpu = Reset.set_printer_connected true (press_key 4 col (set_card_switch_col col c));
      printer_connected = true;
      printer_trace = false;
    }

-- The failed assertion of the ROM is `none`.
unfoldable pub load_rom : Nibbles → ℕ → Machine → Option Machine
load_rom words count m = elim (Rom.load m.cpu.rom words count) [
  | none ↦ none
  | some r ↦ some (record m { cpu = record (m.cpu) { rom = r } })
]

unfoldable pub reset : Machine → Machine
unfolding Reset.reset press_key card_switch_col Reset.set_printer_connected Reset.set_printer_trace
reset m =
    let c = press_key 4 (card_switch_col m.cpu.variant) (Reset.reset m.cpu) in
    record m {
      cpu =
          Reset.set_printer_trace m.printer_trace
            (Reset.set_printer_connected m.printer_connected c);
    }

unfoldable pub step : Machine → Outcome × Machine
unfolding consume_breakpoint_hit
step m =
    let r = Step.step m.cpu in
    let (hit, t) = consume_breakpoint_hit r.cpu.trace in
    (
      record {
        weight = r.weight;
        polled_hardware = r.polled_hardware;
        at_boundary = r.at_boundary;
        breakpoint_hit = hit;
      },
      record m { cpu = record (r.cpu) { trace = t } },
    )

-- The printer's switches.
unfoldable pub set_printer_trace : Bool → Machine → Machine
unfolding Reset.set_printer_trace
set_printer_trace on m = record m { printer_trace = on; cpu = Reset.set_printer_trace on m.cpu }

-- Attaching or detaching the printer releases TRACE.
unfoldable pub set_printer_connected : Bool → Machine → Machine
unfolding Reset.set_printer_trace Reset.set_printer_connected
set_printer_connected on m = record m {
  printer_connected = on;
  printer_trace = false;
  cpu = Reset.set_printer_trace false (Reset.set_printer_connected on m.cpu);
}
