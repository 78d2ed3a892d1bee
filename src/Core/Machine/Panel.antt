-- ===== src/Core/Machine/Panel.antt =====
-- Core/TI59Machine.cpp: what the hosts read and press, each under the machine's lock.
use calc_u.Base.{ℕ, Bool, List, [], Option, none, some}
use calc_u.Core.Alu.{Nibbles}
use calc_u.Core.Rom
use calc_u.Core.Cpu.State.{Cpu, CodeLine, DebugEvent, Frame, Trace}
use calc_u.Core.Cpu.Keyboard
use calc_u.Core.Cpu.Printer
use calc_u.Core.Cpu.CardReader
use calc_u.Core.Cpu.LibraryModule
use calc_u.Core.Cpu.Tracing
use calc_u.Core.Cpu.Step
use calc_u.Core.Cpu.Reset
use calc_u.Core.Machine.{Machine}

abbrev with_cpu : Machine → Cpu → Machine
with_cpu m c = record m { cpu = c }

abbrev with_trace : Machine → Trace → Machine
with_trace m t = record m { cpu = record (m.cpu) { trace = t } }

unfoldable pub press_key : ℕ → ℕ → Machine → Machine
unfolding Keyboard.press_key
press_key row col m = with_cpu m (Keyboard.press_key row col m.cpu)

unfoldable pub release_key : ℕ → ℕ → Machine → Machine
unfolding Keyboard.release_key
release_key row col m = with_cpu m (Keyboard.release_key row col m.cpu)

unfoldable pub load_library : Nibbles → ℕ → Machine → Machine
unfolding LibraryModule.load_library
load_library bytes count m =
    with_cpu m (record (m.cpu) { lib = LibraryModule.load_library bytes count m.cpu.lib })

unfoldable pub load_constants : Nibbles → ℕ → Machine → Machine
unfolding Reset.load_constants
load_constants bytes count m = with_cpu m (Reset.load_constants bytes count m.cpu)

unfoldable pub insert_card : Option Nibbles → ℕ → Machine → Machine
unfolding CardReader.insert_card
insert_card bytes count m = with_cpu m (CardReader.insert_card bytes count m.cpu)

unfoldable pub card_eject : Machine → List ℕ × Machine
unfolding CardReader.card_eject
card_eject m = let (bytes, c) = CardReader.card_eject m.cpu in (bytes, with_cpu m c)

unfoldable pub drain_printer_lines : Machine → List (List ℕ) × Machine
unfolding Printer.drain_lines
drain_printer_lines m =
    let (lines, p) = Printer.drain_lines m.cpu.printer in
    (lines, with_cpu m (record (m.cpu) { printer = p }))

unfoldable pub drain_printer_code_lines : Machine → List CodeLine × Machine
unfolding Printer.drain_code_lines
drain_printer_code_lines m =
    let (lines, p) = Printer.drain_code_lines m.cpu.printer in
    (lines, with_cpu m (record (m.cpu) { printer = p }))

unfoldable pub press_printer_print : Bool → Machine → Machine
unfolding Reset.press_printer_print
press_printer_print on m = with_cpu m (Reset.press_printer_print on m.cpu)

unfoldable pub press_printer_adv : Bool → Machine → Machine
unfolding Reset.press_printer_adv
press_printer_adv on m = with_cpu m (Reset.press_printer_adv on m.cpu)

unfoldable pub set_trace_flags : ℕ → Machine → Machine
unfolding Tracing.set_trace_flags
set_trace_flags f m = with_trace m (Tracing.set_trace_flags f m.cpu.trace)

unfoldable pub set_debug_level : ℕ → Machine → Machine
unfolding Reset.set_debug_level
set_debug_level level m = with_cpu m (Reset.set_debug_level level m.cpu)

unfoldable pub add_breakpoint : ℕ → Machine → Machine
unfolding Tracing.add_breakpoint
add_breakpoint pc m =
    with_trace m
      (record (m.cpu.trace) { breakpoints = Tracing.add_breakpoint pc m.cpu.trace.breakpoints })

unfoldable pub remove_breakpoint : ℕ → Machine → Machine
unfolding Tracing.remove_breakpoint
remove_breakpoint pc m =
    with_trace m
      (record (m.cpu.trace) { breakpoints = Tracing.remove_breakpoint pc m.cpu.trace.breakpoints })

unfoldable pub clear_breakpoints : Machine → Machine
unfolding Tracing.clear_breakpoints
clear_breakpoints m = with_trace m (Tracing.clear_breakpoints m.cpu.trace)

-- `none` is the refusal of an overlay that is too long: the ROM is unchanged.
unfoldable pub load_debug_overlay : Nibbles → ℕ → Machine → Option Machine
unfolding Rom.load_overlay
load_debug_overlay words count m = elim (Rom.load_overlay m.cpu.rom words count) [
  | none ↦ none
  | some r ↦ some (with_cpu m (record (m.cpu) { rom = r }))
]

unfoldable pub clear_debug_overlay : Machine → Machine
unfolding Rom.clear_overlay
clear_debug_overlay m = with_cpu m (record (m.cpu) { rom = Rom.clear_overlay m.cpu.rom })

unfoldable pub run_debug_overlay : ℕ → ℕ → Machine → Bool × ℕ × Machine
unfolding Step.run_debug_injected_program
run_debug_overlay start max_steps m =
    let (reached, done, c) = Step.run_debug_injected_program start max_steps m.cpu in
    (reached, done, with_cpu m c)

unfoldable pub drain_cpu_frames : ℕ → Machine → List Frame × ℕ × Machine
unfolding Tracing.drain_cpu_frames
drain_cpu_frames max m =
    let d = Tracing.drain_cpu_frames max m.cpu.trace in (d.frames, d.lost, with_trace m d.trace)

unfoldable pub begin_next_step : Machine → Machine
unfolding Tracing.begin_next_step
begin_next_step m = with_cpu m (Tracing.begin_next_step m.cpu)

unfoldable pub drain_debug_events : Machine → List (ℕ × DebugEvent) × Machine
drain_debug_events m = (
  m.cpu.debug.events,
  with_cpu m (record (m.cpu) { debug = record (m.cpu.debug) { events = [] } }),
)
