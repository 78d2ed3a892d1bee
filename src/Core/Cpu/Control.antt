-- ===== src/Core/Cpu/Control.antt =====
-- Opcodes 0x0Axx: WAIT, IDLE, KR and R5 moves, the peripherals, and SCOM store and recall.
use calc_u.Base.{
  ℕ, ◌+◌, ◌*◌, ◌/◌, ◌%◌, ◌^◌, Bool, true, false, not, ◌&&◌, ◌||◌, if◌then◌else◌, ◌==◌, ltb, any_bit,
  bit_or, bit_xor, clear16, u8, u16, bit_and,
}
use calc_u.Core.Cpu.State.{Cpu, Printer, clear_cond_if}
use calc_u.Core.Cpu.Printer.{out_prt, out_prt_func, prt_clear, prt_step, prt_print, prt_feed}
use calc_u.Core.Cpu.CardReader.{in_crd, out_crd, crd_off, crd_read, crd_write}
use calc_u.Core.Cpu.LibraryModule.{exec_library}

-- Bits 7 to 4 of the opcode.
abbrev pub arg : ℕ → ℕ
arg opcode = opcode / 16 % 16

abbrev pub set_hold : Bool → Cpu → Cpu
set_hold t c = record c { flags = record (c.flags) { hold = if t then true else c.flags.hold } }

unfoldable pub exec_wait : ℕ → Cpu → Cpu
exec_wait opcode c = set_hold (not (c.digit == arg opcode)) c

unfoldable pub inc_kr : ℕ → ℕ
inc_kr kr = let k = u16 (kr + 0x0010) in if bit_and k 0xFFF0 == 0 then bit_xor k 0x0001 else k

-- MEMWR, MEMRD, and the moves of flag bits 1 to 4 into R5.
unfoldable pub exec_memory : ℕ → Cpu → Cpu
exec_memory opcode c =
    let a = u8 (c.sout 1 * 16 + c.sout 0) in
    let fits = ltb a c.ram.max_regs in
    if arg opcode == 7
    then record c {
      ram_addr = a;
      flags = record (c.flags) { ram_write = if fits then true else c.flags.ram_write };
    }
    else if arg opcode == 8
    then record c {
      ram_addr = a;
      flags = record (c.flags) { ram_read = if fits then true else c.flags.ram_read };
    }
    else record c { r5 = (if any_bit opcode 0x0010 then c.fb else c.fa) / 2 % 16 }

abbrev pub with_printer : Cpu → Printer → Cpu
with_printer c p = record c { printer = p }

abbrev pub set_busy : Bool → Cpu → Cpu
set_busy t c = record c { flags = record (c.flags) { busy = if t then true else c.flags.busy } }

unfoldable pub exec_prt_print : Cpu → Cpu
unfolding prt_print
exec_prt_print c = let (p, t) = prt_print c.printer in set_busy t (with_printer c p)

unfoldable pub exec_prt_feed : Cpu → Cpu
unfolding prt_feed
exec_prt_feed c = set_busy true (with_printer c (prt_feed c.printer))

unfoldable pub exec_peripheral : ℕ → Cpu → Cpu
unfolding in_crd out_crd crd_off crd_read crd_write out_prt out_prt_func prt_clear prt_step
    exec_prt_print exec_prt_feed
exec_peripheral opcode c =
    let sub = arg opcode in
    if sub == 0
    then record c { r5 = c.kr / 16 % 16 }
    else if sub == 1
    then record c { kr = u16 (bit_or (clear16 c.kr 0x00F0) (c.r5 * 16)) }
    else if sub == 2
    then in_crd c
    else if sub == 3
    then out_crd c
    else if sub == 4
    then crd_off c
    else if sub == 5
    then crd_read c
    else if sub == 12
    then crd_write c
    else if sub == 6
    then with_printer c (out_prt c.kr c.printer)
    else if sub == 7
    then with_printer c (out_prt_func c.kr c.printer)
    else if sub == 8
    then with_printer c (prt_clear c.printer)
    else if sub == 9
    then with_printer c (prt_step c.printer)
    else if sub == 10
    then exec_prt_print c
    else if sub == 11
    then exec_prt_feed c
    else if sub == 15
    then record c { flags = record (c.flags) { ram_op = true } }
    else c

-- TST BUSY: the card wait, COND, and the poll mark.
unfoldable pub exec_test_busy : Cpu → Cpu
exec_test_busy c =
    let line = any_bit (c.key c.digit) 16 in
    record c {
      card = record (c.card) {
        waiting =
            if not c.card.present && c.digit == c.card.switch_col && line
            then true
            else c.card.waiting;
      };
      flags = record (c.flags) { cond = if line || c.flags.busy then false else c.flags.cond };
      last_poll = if line && not c.flags.busy then true else c.last_poll;
    }

unfoldable pub exec_scom : ℕ → Cpu → Cpu
exec_scom opcode c =
    if arg opcode == 0
    then record c { reg_addr = c.sout 0 % 16; flags = record (c.flags) { store = true } }
    else if arg opcode == 1
    then record c { reg_addr = c.sout 0 % 16; flags = record (c.flags) { recall = true } }
    else c

unfoldable pub exec_control : ℕ → Cpu → Cpu
unfolding exec_wait inc_kr exec_memory exec_peripheral exec_test_busy exec_library exec_scom
exec_control opcode c =
    let sub = opcode % 16 in
    if sub == 0
    then exec_wait opcode c
    else if sub == 1
    then record c { flags = record (c.flags) { idle = false } }
    else if sub == 2
    then record c { fa = 0 }
    else if sub == 3
    then c
    else if sub == 4
    then record c { kr = inc_kr c.kr }
    else if sub == 5
    then clear_cond_if (any_bit c.kr (2 ^ arg opcode)) c
    else if sub == 6
    then exec_memory opcode c
    else if sub == 7
    then record c { r5 = arg opcode }
    else if sub == 8
    then exec_peripheral opcode c
    else if sub == 9
    then record c { flags = record (c.flags) { idle = true } }
    else if sub == 10
    then record c { fb = 0 }
    else if sub == 11
    then exec_test_busy c
    else if sub == 12
    then record c { kr = u16 (bit_or (c.kr % 16) c.ext) }
    else if sub == 13
    then record c { kr = c.sr; sr = c.kr }
    else if sub == 14
    then exec_library opcode c
    else exec_scom opcode c
