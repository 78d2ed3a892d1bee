-- ===== src/Core/Cpu/ExecAlu.antt =====
-- `execALU()`: the ALU opcodes, and the deferred SCOM and RAM operations that they complete.
use mathlib.Core.Option
use calc_u.Base.{
  ℕ, ◌+◌, ◌*◌, ◌/◌, ◌%◌, Bool, true, false, not, ◌&&◌, ◌||◌, if◌then◌else◌, ◌==◌, ltb, leb, upd,
  List, [], ◌∷◌, ◌++◌, none, some, get_or, length, merge_range, bit_and, bit_or, shr, u8,
}
use calc_u.Core.Alu.{
  Reg, ra, rb, rc, rd, re, Regs, Nibbles, MaskInfo, mask_info, AluOp, alu_add, alu_shl, alu_sub,
  alu_shr, Source, null, reg, buffer, Dest, nowhere, into, alu, xch, put,
}
use calc_u.Core.Ram
use calc_u.Core.Ram.{Ram}
use calc_u.Core.Cpu.State.{Cpu, Debug, DebugEvent, sto, clr_all, clr10, memwr}

-- Events above the level or beyond 8192 are dropped.
unfoldable pub emit_debug : ℕ → DebugEvent → Debug → Debug
emit_debug level ev d =
    if ltb d.level level
    then d
    else if leb 8192 (length d.events)
    then d
    else record d { events = d.events ++ (level, ev) ∷ [] }

unfoldable pub drain_debug_events : Debug → List (ℕ × DebugEvent) × Debug
drain_debug_events d = (d.events, record d { events = [] })

abbrev pub log : ℕ → DebugEvent → Cpu → Cpu
log level ev c = record c { debug = emit_debug level ev c.debug }

-- The nibbles of the field, the others zero.
unfoldable pub read_reg_masked : Ram → ℕ → MaskInfo → Nibbles
read_reg_masked m r k = elim (Ram.read_reg m r) [
  | none ↦ λ i. 0
  | some src ↦ if k.start == 0xFF then (λ i. 0) else merge_range (λ i. 0) src k.start k.stop
]

unfoldable pub write_reg_masked : Ram → ℕ → Nibbles → MaskInfo → Ram
write_reg_masked m r src k =
    if not (k.start == 0xFF) && ltb r m.max_regs
    then elim (Ram.read_reg m r) [
      | none ↦ m
      | some current ↦ Option.get_or (Ram.write_reg m r (merge_range current src k.start k.stop)) m
    ]
    else m

unfoldable pub read_scom_masked : (ℕ → Nibbles) → ℕ → MaskInfo → Nibbles
read_scom_masked scom r k =
    if ltb r 16 && not (k.start == 0xFF) then merge_range (λ i. 0) (scom r) k.start k.stop else λ i.
    0

-- The sources and the operation of indices 0 to 23.
abbrev source_table : List (Source × Source × AluOp)
source_table =
    (reg ra, null, alu_add)
    ∷ (reg ra, null, alu_sub)
    ∷ (null, reg rb, alu_add)
    ∷ (null, reg rb, alu_sub)
    ∷ (reg rc, null, alu_add)
    ∷ (reg rc, null, alu_sub)
    ∷ (null, reg rd, alu_add)
    ∷ (null, reg rd, alu_sub)
    ∷ (reg ra, null, alu_shl)
    ∷ (reg ra, null, alu_shr)
    ∷ (null, reg rb, alu_shl)
    ∷ (null, reg rb, alu_shr)
    ∷ (reg rc, null, alu_shl)
    ∷ (reg rc, null, alu_shr)
    ∷ (null, reg rd, alu_shl)
    ∷ (null, reg rd, alu_shr)
    ∷ (reg ra, reg rb, alu_add)
    ∷ (reg ra, reg rb, alu_sub)
    ∷ (reg rc, reg rb, alu_add)
    ∷ (reg rc, reg rb, alu_sub)
    ∷ (reg rc, reg rd, alu_add)
    ∷ (reg rc, reg rd, alu_sub)
    ∷ (reg ra, reg rd, alu_add)
    ∷ (reg ra, reg rd, alu_sub)
    ∷ []

unfoldable pub alu_sources : ℕ → Source × Source × AluOp
alu_sources idx = get_or source_table idx (null, null, alu_add)

unfoldable pub alu_dest : ℕ → Dest
alu_dest code =
    get_or (into ra ∷ nowhere ∷ nowhere ∷ into rb ∷ into rc ∷ nowhere ∷ into rd ∷ nowhere ∷ []) code
      nowhere

-- KR bits 4 to 6 and 8 to 11.
unfoldable pub const_index : ℕ → ℕ
const_index kr =
    let i = bit_or (bit_and (shr kr 5) 0x78) (bit_and (shr kr 4) 0x07) in if leb 64 i then 0 else i

-- `alu()` on the processor.
unfoldable pub run_alu : Dest → Source → Source → MaskInfo → AluOp → Cpu → Cpu
run_alu dst x y m op c =
    let t = alu dst x y m op (record {
      regs = c.regs;
      sout = c.sout;
      r5 = c.r5;
      cond = c.flags.cond;
      carry = 0;
      shl = 0;
    }) in
    record c { regs = t.regs; sout = t.sout; r5 = t.r5; flags = record (c.flags) { cond = t.cond } }

-- MOV dst, #0, which a pending recall or RAM read overrides.
unfoldable pub move_zero : Dest → MaskInfo → Cpu → Cpu
unfolding run_alu read_scom_masked read_reg_masked
move_zero dst m c =
    if c.flags.recall
    then (run_alu dst null (buffer (read_scom_masked c.scom c.reg_addr m)) m alu_add
        (record c { flags = record (c.flags) { recall = false } }))
    else if c.flags.ram_read && ltb c.ram_addr c.ram.max_regs
    then (run_alu dst null (buffer (read_reg_masked c.ram c.ram_addr m)) m alu_add
        (record c { flags = record (c.flags) { ram_read = false } }))
    else run_alu dst null null m alu_add c

-- The destination before MOV dst, R5: the field cleared above its start, the constant, then R5.
abbrev pub load_r5 : Regs → Reg → MaskInfo → ℕ → Regs
load_r5 rs r m r5 =
    let cleared : Regs =
      λ q j. if leb (m.start + 1) j && leb j m.stop then put rs r j 0 q j else rs q j in
    put (put cleared r m.cpos m.cval) r m.start r5

unfoldable pub move_r5 : Dest → MaskInfo → AluOp → Cpu → Cpu
unfolding run_alu
move_r5 nowhere m op c = c
move_r5 (into r) m op c =
    run_alu (into r) null (reg r) m op (record c { regs = load_r5 c.regs r m c.r5 })

-- The operation by bits 7 to 3.
unfoldable pub operate : ℕ → Dest → MaskInfo → Cpu → Cpu
unfolding run_alu move_zero move_r5 alu_sources const_index
operate idx dst m c =
    let row : Source = buffer (c.constant (const_index c.kr)) in
    if idx == 24
    then run_alu dst (reg ra) row m alu_add c
    else if idx == 25
    then run_alu dst (reg ra) row m alu_sub c
    else if idx == 26
    then move_zero dst m c
    else if idx == 27
    then run_alu dst null null m alu_sub c
    else if idx == 28
    then run_alu dst (reg rc) row m alu_add c
    else if idx == 29
    then run_alu dst (reg rc) row m alu_sub c
    else if idx == 30
    then move_r5 dst m alu_add c
    else if idx == 31
    then move_r5 dst m alu_sub c
    else let (x, y, op) = alu_sources idx in run_alu dst x y m op c

-- The exchange that destination codes 2, 5 and 7 stand for.
unfoldable pub exchange : ℕ → MaskInfo → Regs → Regs
exchange code m rs =
    if code == 2
    then xch ra rb m rs
    else if code == 5
    then xch rc rd m rs
    else if code == 7
    then xch ra re m rs
    else rs

-- What the IO bus carries: Sout if the instruction drove it, else zeros.
abbrev pub bus : Cpu → Nibbles
bus c = if c.flags.io_valid then c.sout else λ i. 0

unfoldable pub finish_store : Cpu → Cpu
unfolding emit_debug
finish_store c =
    if c.flags.store
    then (log 2 (sto c.reg_addr (bus c)) (record c {
      scom = upd c.scom c.reg_addr (λ i. if ltb i 16 then bus c i else c.scom c.reg_addr i);
      flags = record (c.flags) { store = false };
    }))
    else c

-- The RAM operation that Sout names.
unfoldable pub decode_ram_op : Cpu → Cpu
unfolding emit_debug
decode_ram_op c =
    let op = bus c 0 % 16 in
    let a = u8 (bus c 3 * 10 + bus c 2) in
    let d = record c {
      ram_opcode = op;
      ram_addr = a;
      flags = record (c.flags) { ram_op = false };
    } in
    if op == 2
    then log 2 clr_all (record d { ram = Ram.clear c.ram })
    else if ltb a c.ram.max_regs
    then (if op == 4
        then log 2 (clr10 a) (record d { ram = Ram.clear_reg c.ram a 10 })
        else if op == 1
        then record d { flags = record (d.flags) { ram_write = true } }
        else if op == 0
        then record d { flags = record (d.flags) { ram_read = true } }
        else d)
    else d

unfoldable pub finish_ram_write : Cpu → Cpu
unfolding emit_debug write_reg_masked
finish_ram_write c =
    let d = record c { flags = record (c.flags) { ram_write = false } } in
    if ltb c.ram_addr c.ram.max_regs
    then (log 2 (memwr c.ram_addr (bus c))
        (record d { ram = write_reg_masked c.ram c.ram_addr (bus c) c.ram_mask }))
    else d

unfoldable pub finish_ram : Cpu → Cpu
unfolding decode_ram_op finish_ram_write
finish_ram c =
    if c.flags.ram_op then decode_ram_op c else if c.flags.ram_write then finish_ram_write c else c

-- Sout stays for one more cycle only if the instruction drove it.
abbrev pub settle_sout : Cpu → Cpu
settle_sout c = record c { sout = bus c }

abbrev pub drive_io : Bool → Cpu → Cpu
drive_io t c = record c {
  flags = record (c.flags) { io_valid = if t then true else c.flags.io_valid };
}

abbrev pub capture_mask : MaskInfo → Cpu → Cpu
capture_mask m c = record c {
  ram_mask = if c.flags.ram_write || c.flags.ram_read then m else c.ram_mask;
}

unfoldable pub exec_alu : ℕ → Cpu → Cpu
unfolding operate exchange alu_dest finish_store finish_ram
exec_alu opcode c =
    let m = mask_info (opcode / 256 % 16) in
    let code = opcode % 8 in
    let done = operate (opcode / 8 % 32) (alu_dest code) m (drive_io (code == 1) c) in
    let swapped = record done { regs = exchange code m done.regs } in
    settle_sout (finish_ram (finish_store (capture_mask m swapped)))
