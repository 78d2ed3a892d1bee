-- ===== src/Core/Cpu/Examples.antt =====
-- Runs of the processor's theorems, on a machine that was switched on.
use calc_u.Base.{
  ℕ, zero, suc, ◌+◌, ◌*◌, ◌%◌, ◌≤◌, ◌≡◌, refl, true, false, not, if◌then◌else◌, ◌==◌, List, [], ◌∷◌,
  ◌++◌, none, some, arith, length, slice, get_or, bit,
}
use calc_u.Core.Alu.{no_mask}
use calc_u.Core.Ram
use calc_u.Core.Cpu.State.{Cpu, ti59, cond_only, blank_line, Printer, Frame}
use calc_u.Core.Cpu.State.{weigh}
use calc_u.Core.Rom.{read}
use calc_u.Core.Cpu.FlagOps.{exec_flag}
use calc_u.Core.Cpu.FlagOps.Laws.{exec_flag_lem}
use calc_u.Core.Cpu.Keyboard.{exec_key, line_mask}
use calc_u.Core.Cpu.Keyboard.Laws.{exec_key-found, exec_key-ignored}
use calc_u.Core.Cpu.Printer.{cut_line, prt_print, line_cycles}
use calc_u.Core.Cpu.Printer.Laws.{
  write_code, print, feed, tick, apply_all, IsConsistent, apply_all-IsConsistent,
}
use calc_u.Core.Cpu.Printer.Timing.{ticks, printed_codes, ticks-print, print-stop}
use calc_u.Core.Cpu.CardReader.{card_eject, crd_off, crd_write, crd_read, insert_card, bank_bytes}
use calc_u.Core.Cpu.CardReader.Laws.{
  AreBytes, write_all, read_all, write_all-eject, read_all-insert,
}
use calc_u.Core.Cpu.LibraryModule.Laws.{send_four, read_four, read_four-send_four}
use calc_u.Core.Cpu.Tracing.{drain_cpu_frames, behind, frame_ring_size}
use calc_u.Core.Cpu.Tracing.Laws.{drain_cpu_frames_lem}
use calc_u.Core.Cpu.Step.{step, steps, prologue, execute}
use calc_u.Core.Cpu.Step.Laws.{step-plain, step-branch}
use calc_u.Core.Cpu.Step.Waiting.{steps-wait}

abbrev no_frame : Frame
no_frame = record {
  seqno = 0;
  pc = 0;
  opcode = 0;
  digit = 0;
  post_digit = 0;
  cycle_weight = 0;
  kr = 0;
  sr = 0;
  fa = 0;
  fb = 0;
  cpu_flags = 0;
  r5 = 0;
  regs = λ q i. 0;
  scom = λ r i. 0;
  sout = λ i. 0;
  ext = 0;
  preg = 0;
  flags = 0;
  lib_addr = 0;
  lib_addr_read_pos = 0;
  reg_addr = 0;
  ram_addr = 0;
  ram_op = 0;
  display_on = 0;
  max_digit_decay = 0;
}

abbrev idle_printer : Printer
idle_printer = record {
  buf = λ i. [];
  code_buf = λ i. i;
  ptr = 0;
  ready = true;
  busy_cycles = 0;
  pending = blank_line;
  has_pending = false;
  lines = [];
  code_lines = [];
}

abbrev machine : Cpu
machine = record {
  rom = record { words = λ i. 0x0A30; size = 6144; overlay = λ i. 0; overlay_valid = λ i. false };
  ram = Ram.init;
  variant = ti59;
  regs = λ q i. 0;
  scom = λ r i. 0;
  constant = λ r i. 0;
  kr = 0;
  sr = 0;
  fa = 0;
  fb = 0;
  ext = 0;
  preg = 0;
  sout = λ i. 0;
  flags = cond_only;
  r5 = 0;
  digit = 9;
  addr = 100;
  reg_addr = 0;
  ram_addr = 0;
  ram_opcode = 0;
  ram_mask = no_mask;
  key = λ i. if i == 9 then 4 else 0;
  lib = record {
    addr = 4998;
    read_pos = 0;
    was_writing = false;
    image = λ i. i % 256;
    exec_pc = 0;
  };
  card = record {
    switch_col = 10;
    present = true;
    waiting = false;
    full = λ i. 0;
    bank = λ i. 0;
    ptr = 0;
    mode = 0;
    last_written = none;
  };
  printer = idle_printer;
  display = record {
    segments_a = λ i. 0;
    segments_b = λ i. 0;
    lit_ticks = λ i. 0;
    dp_ticks = λ i. 0;
    suppressed_mask = 0;
    zero_running = true;
    driven_this = 0;
    driven_last = 0;
  };
  clock = record { c_steps = 0; poll_steps = 0; elapsed = 0 };
  debug = record { level = 0; events = [] };
  trace = record {
    flags = 0;
    seqno = 0;
    ring = λ i. no_frame;
    head = 5;
    disk_cursor = 2;
    breakpoints = 10 ∷ 20 ∷ [];
    hit = false;
  };
  pending_opcode = 0;
  last_poll = false;
  boundary = record { cpu = no_frame; lib_exec_pc = 0; at_step = false; count = 0 };
}

-- SET fA[3]
exec_flag_lem_example :
    let d = exec_flag 0x0031 machine in
    (bit d.fa 3 ≡ 1) × (bit d.fb 3 ≡ 0) × (bit d.kr 3 ≡ 0) × (d.flags.cond ≡ true)
exec_flag_lem_example = exec_flag_lem 0x0031 machine 3 (omega arith)

-- A scan of all lines, in the row of the key that is down.
exec_key-found_example :
    let d = exec_key 0x0800 machine in
    (d.flags.cond ≡ false) × (d.kr ≡ 9 * 16 + 2 * 256) × (d.flags.hold ≡ false)
unfolding line_mask
exec_key-found_example = exec_key-found 0x0800 machine 2 refl (omega arith) (omega arith) refl

exec_key-ignored_example :
    let d = exec_key 0x0807 machine in (d.flags.cond ≡ true) × (d.kr ≡ 0) × (d.flags.hold ≡ true)
unfolding line_mask
exec_key-ignored_example = exec_key-ignored 0x0807 machine refl (λ e. absurd (omega (arith, e)))

apply_all-IsConsistent_example :
    IsConsistent (apply_all (write_code 16 ∷ print ∷ tick ∷ feed ∷ []) idle_printer)
apply_all-IsConsistent_example =
    apply_all-IsConsistent (write_code 16 ∷ print ∷ tick ∷ feed ∷ []) idle_printer
      (omega arith, omega arith, refl)

ticks-print_example :
    let q = ticks line_cycles (prt_print idle_printer).0 in
    (q.busy_cycles ≡ 0)
    × (q.has_pending ≡ false)
    × (length q.lines ≡ 0 + 1)
    × (q.code_lines
        ≡ []
          ++ record (printed_codes idle_printer) {
            row_count = 7;
            partial_columns = 0;
            partial_heat = 0;
          }
            ∷ [])
ticks-print_example = ticks-print idle_printer refl refl

print-stop_example :
    let q = prt_print (ticks 1000 (prt_print idle_printer).0) in
    (q.1 ≡ false)
    × (q.0.has_pending ≡ false)
    × (length q.0.lines ≡ 0 + 1)
    × (q.0.code_lines ≡ [] ++ cut_line 1000 (printed_codes idle_printer) ∷ [])
print-stop_example = print-stop idle_printer 1000 refl refl (omega arith)

-- The bytes of a bank: its number among them, in byte 2.
ones : ℕ → List ℕ
ones zero = []
ones (suc n) = 1 ∷ ones n

ones-AreBytes : (n : ℕ) → AreBytes (ones n)
unfolding ones
ones-AreBytes zero = tt
ones-AreBytes (suc n) = (omega arith, ones-AreBytes n)

length-ones : (n : ℕ) → length (ones n) ≡ n
unfolding ones
length-ones zero = refl
length-ones (suc n) = omega (arith, length-ones n)

third : (n : ℕ) → get_or (ones (suc (suc (suc n)))) 2 0 ≡ 1
unfolding ones
third n = refl

write_all-eject_example :
    (card_eject (crd_off (write_all (ones 246) (crd_write machine)))).0 ≡ ones 246
write_all-eject_example =
    write_all-eject (ones 246) machine (length-ones 246) (ones-AreBytes 246)
      (omega (arith, third 243)) refl refl

read_all-insert_example :
    read_all 5 (crd_read (insert_card (some (λ i. 7)) bank_bytes machine)) ≡ slice (λ i. 7) 0 5
read_all-insert_example = read_all-insert (λ i. 7) 5 machine (omega arith) (λ j. omega arith)

read_four-send_four_example : read_four (send_four 4 3 2 1 machine) ≡ 4 ∷ 3 ∷ 2 ∷ 1 ∷ []
read_four-send_four_example =
    read_four-send_four 4 3 2 1 machine (omega arith) (omega arith) (omega arith) (omega arith)
      (omega arith)

drain_cpu_frames_lem_example :
    let d = drain_cpu_frames 2 machine.trace in
    (d.lost + length d.frames + behind d.trace ≡ behind machine.trace)
    × (length d.frames ≤ 2)
    × (length d.frames + behind d.trace ≤ frame_ring_size)
drain_cpu_frames_lem_example =
    drain_cpu_frames_lem 2 machine.trace (omega arith) (omega arith) (omega arith)

-- WAIT D3 in every word of the ROM.
step-plain_example :
    let x = execute 0x0A30 (prologue machine) in
    (step machine).cpu.addr ≡ (if x.flags.hold then 100 else if x.preg == 0 then 101 else x.preg)
unfolding read
step-plain_example = step-plain machine refl

-- A branch back by 4 when COND is set.
abbrev branching : Cpu
branching = record machine {
  rom = record { words = λ i. 0x1809; size = 6144; overlay = λ i. 0; overlay_valid = λ i. false };
}

step-branch_example :
    (step branching).cpu.addr
    ≡ (if not (weigh (prologue branching).flags.cond 1 == 1) then 101 else 96)
unfolding read
step-branch_example = step-branch branching refl

steps-wait_example :
    ((steps 5 machine).addr ≡ 100) × ((steps 6 machine).addr ≡ 101) × ((steps 6 machine).digit ≡ 3)
unfolding read
steps-wait_example = steps-wait 0x0A30 machine (refl, refl, refl) (omega arith, refl, refl, refl)
