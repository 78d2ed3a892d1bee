-- ===== src/Core/Cpu/State.antt =====
-- The data members of `TMC0501`, grouped: the state of the processor and of what hangs on it.
-- Mutexes and atomics are left out: each operation is one step on the state.
use calc_u.Base.{ℕ, ◌+◌, Bool, true, false, List, Option, if◌then◌else◌}
use calc_u.Core.Alu.{Regs, Nibbles, MaskInfo}
use calc_u.Core.Ram.{Ram}
use calc_u.Core.Rom.{Rom}

pub data MachineVariant : Type 0 where
  ti59 ti58 ti58c : MachineVariant

abbrev pub has_constant_memory : MachineVariant → Bool
has_constant_memory ti59 = false
has_constant_memory ti58 = false
has_constant_memory ti58c = true

abbrev pub has_large_memory : MachineVariant → Bool
has_large_memory ti59 = true
has_large_memory ti58 = false
has_large_memory ti58c = false

-- The bits of `flags`.
pub record Flags : Type 0 where
  pub idle : Bool
  pub hold : Bool
  pub jump : Bool
  pub recall : Bool
  pub store : Bool
  pub ram_op : Bool
  pub ram_read : Bool
  pub ram_write : Bool
  pub ext_valid : Bool
  pub io_valid : Bool
  pub cond : Bool
  pub busy : Bool

abbrev pub weigh : Bool → ℕ → ℕ
weigh true w = w
weigh false w = 0

-- The 16-bit word that the bits form.
unfoldable pub flag_word : Flags → ℕ
flag_word f =
    weigh f.idle 0x0001
    + weigh f.hold 0x0002
    + weigh f.jump 0x0004
    + weigh f.recall 0x0010
    + weigh f.store 0x0020
    + weigh f.ram_op 0x0040
    + weigh f.ram_read 0x0080
    + weigh f.ram_write 0x0100
    + weigh f.ext_valid 0x0200
    + weigh f.io_valid 0x0400
    + weigh f.cond 0x0800
    + weigh f.busy 0x8000

-- The flags after a reset: `FLG_COND`.
abbrev pub cond_only : Flags
cond_only = record {
  idle = false;
  hold = false;
  jump = false;
  recall = false;
  store = false;
  ram_op = false;
  ram_read = false;
  ram_write = false;
  ext_valid = false;
  io_valid = false;
  cond = true;
  busy = false;
}

-- The library module and its address counter.
pub record Library : Type 0 where
  pub addr : ℕ
  pub read_pos : ℕ
  pub was_writing : Bool
  pub image : Nibbles
  pub exec_pc : ℕ

-- `m_lastWrittenBank` is `none` for -1.
pub record Card : Type 0 where
  pub switch_col : ℕ
  pub present : Bool
  pub waiting : Bool
  pub full : Nibbles
  pub bank : Nibbles
  pub ptr : ℕ
  pub mode : ℕ
  pub last_written : Option ℕ

-- `PrinterCodeLine`
pub record CodeLine : Type 0 where
  pub codes : Nibbles
  pub row_count : ℕ
  pub partial_columns : ℕ
  pub partial_heat : ℕ

abbrev pub blank_line : CodeLine
blank_line = record { codes = λ i. 0; row_count = 7; partial_columns = 0; partial_heat = 0 }

pub record Printer : Type 0 where
  -- the text of each slot, as code points
  pub buf : ℕ → List ℕ
  pub code_buf : Nibbles
  pub ptr : ℕ
  pub ready : Bool
  pub busy_cycles : ℕ
  pub pending : CodeLine
  pub has_pending : Bool
  pub lines : List (List ℕ)
  pub code_lines : List CodeLine

pub record Display : Type 0 where
  pub segments_a : Nibbles
  pub segments_b : Nibbles
  pub lit_ticks : Nibbles
  pub dp_ticks : Nibbles
  pub suppressed_mask : ℕ
  pub zero_running : Bool
  pub driven_this : ℕ
  pub driven_last : ℕ

pub record Clock : Type 0 where
  pub c_steps : ℕ
  pub poll_steps : ℕ
  pub elapsed : ℕ

-- `CpuFrame`. The registers A to E are one field.
pub record Frame : Type 0 where
  pub seqno : ℕ
  pub pc : ℕ
  pub opcode : ℕ
  pub digit : ℕ
  pub post_digit : ℕ
  pub cycle_weight : ℕ
  pub kr : ℕ
  pub sr : ℕ
  pub fa : ℕ
  pub fb : ℕ
  pub cpu_flags : ℕ
  pub r5 : ℕ
  pub regs : Regs
  pub scom : ℕ → Nibbles
  pub sout : Nibbles
  pub ext : ℕ
  pub preg : ℕ
  pub flags : ℕ
  pub lib_addr : ℕ
  pub lib_addr_read_pos : ℕ
  pub reg_addr : ℕ
  pub ram_addr : ℕ
  pub ram_op : ℕ
  pub display_on : ℕ
  pub max_digit_decay : ℕ

pub record Trace : Type 0 where
  pub flags : ℕ
  pub seqno : ℕ
  pub ring : ℕ → Frame
  pub head : ℕ
  pub disk_cursor : ℕ
  pub breakpoints : List ℕ
  pub hit : Bool

-- The events by what they report; their text is not modelled.
pub data DebugEvent : Type 0 where
  sto : ℕ → Nibbles → DebugEvent
  clr_all : DebugEvent
  clr10 : ℕ → DebugEvent
  memwr : ℕ → Nibbles → DebugEvent

pub record Debug : Type 0 where
  pub level : ℕ
  pub events : List (ℕ × DebugEvent)

pub record StepBoundary : Type 0 where
  pub cpu : Frame
  pub lib_exec_pc : ℕ
  pub at_step : Bool
  pub count : ℕ

pub record Cpu : Type 0 where
  pub rom : Rom
  pub ram : Ram
  pub variant : MachineVariant
  pub regs : Regs
  pub scom : ℕ → Nibbles
  pub constant : ℕ → Nibbles
  pub kr : ℕ
  pub sr : ℕ
  pub fa : ℕ
  pub fb : ℕ
  pub ext : ℕ
  pub preg : ℕ
  pub sout : Nibbles
  pub flags : Flags
  pub r5 : ℕ
  pub digit : ℕ
  pub addr : ℕ
  pub reg_addr : ℕ
  pub ram_addr : ℕ
  pub ram_opcode : ℕ
  pub ram_mask : MaskInfo
  pub key : Nibbles
  pub lib : Library
  pub card : Card
  pub printer : Printer
  pub display : Display
  pub clock : Clock
  pub debug : Debug
  pub trace : Trace
  pub pending_opcode : ℕ
  pub last_poll : Bool
  pub boundary : StepBoundary

abbrev pub clear_cond : Cpu → Cpu
clear_cond c = record c { flags = record (c.flags) { cond = false } }

-- `if (test) flags &= ~FLG_COND;`
abbrev pub clear_cond_if : Bool → Cpu → Cpu
clear_cond_if t c = record c {
  flags = record (c.flags) { cond = if t then false else c.flags.cond };
}

abbrev pub lib_exec_pc_none : ℕ
lib_exec_pc_none = 0xFFFF

abbrev pub idle_entry_pc : ℕ
idle_entry_pc = 0x0624

unfoldable pub lib_exec_fetch_pc : MachineVariant → ℕ
lib_exec_fetch_pc v = elim v [ ti58c ↦ 0x0823 | _ ↦ 0x082F ]

unfoldable pub step_dispatch_pc : MachineVariant → ℕ
unfolding lib_exec_fetch_pc
step_dispatch_pc v = lib_exec_fetch_pc v + 8
