-- ===== src/Core/Cpu/Kept.antt =====
-- What no instruction but a branch touches: the digit counter, the address, the ROM, the variant.
use calc_u.Base.{ℕ, ◌/◌, ◌%◌, ◌≡◌, refl, ◌∙◌, Bool, true, false, if◌then◌else◌, ◌==◌, arith}
use calc_u.Core.Alu
use calc_u.Core.Alu.{Dest, nowhere, into, Source, MaskInfo, AluOp}
use calc_u.Core.Cpu.State.{Cpu}
use calc_u.Core.Cpu.FlagOps.{exec_flag}
use calc_u.Core.Cpu.Keyboard.{exec_key}
use calc_u.Core.Cpu.LibraryModule.{exec_library, in_lib, out_lib_pc, in_lib_pc, in_lib_high}
use calc_u.Core.Cpu.Control.{
  exec_control, exec_wait, exec_memory, exec_peripheral, exec_prt_print, exec_prt_feed,
  exec_test_busy, exec_scom,
}
use calc_u.Core.Cpu.CardReader.{in_crd, out_crd, crd_off, crd_read, crd_write}
use calc_u.Core.Cpu.ExecAlu.{
  exec_alu, operate, run_alu, move_zero, move_r5, finish_store, finish_ram, decode_ram_op,
  finish_ram_write, drive_io, alu_dest, capture_mask, exchange,
}
use calc_u.Core.Cpu.Step.{execute}

abbrev pub Kept : Cpu → Cpu → Type 0
Kept c d =
    (d.digit ≡ c.digit)
    × (d.addr ≡ c.addr)
    × (d.variant ≡ c.variant)
    × (d.flags.jump ≡ c.flags.jump)

Kept-if : (b : Bool) (c x y : Cpu) → Kept c x → Kept c y → Kept c (if b then x else y)
Kept-if true c x y p q = p
Kept-if false c x y p q = q

exec_flag-Kept : (opcode : ℕ) (c : Cpu) → Kept c (exec_flag opcode c)
unfolding exec_flag
exec_flag-Kept opcode c = ground arith

exec_key-Kept : (opcode : ℕ) (c : Cpu) → Kept c (exec_key opcode c)
unfolding exec_key
exec_key-Kept opcode c = ground arith

exec_library-Kept : (opcode : ℕ) (c : Cpu) → Kept c (exec_library opcode c)
unfolding exec_library in_lib out_lib_pc in_lib_pc in_lib_high
exec_library-Kept opcode c = ground arith

exec_peripheral-Kept : (opcode : ℕ) (c : Cpu) → Kept c (exec_peripheral opcode c)
unfolding exec_peripheral in_crd out_crd crd_off crd_read crd_write exec_prt_print exec_prt_feed
exec_peripheral-Kept opcode c = ground arith

exec_control-Kept : (opcode : ℕ) (c : Cpu) → Kept c (exec_control opcode c)
unfolding exec_control exec_wait exec_memory exec_test_busy exec_scom
exec_control-Kept opcode c =
    ground (arith, exec_peripheral-Kept opcode c, exec_library-Kept opcode c)

move_zero-Kept : (d : Dest) (m : MaskInfo) (c : Cpu) → Kept c (move_zero d m c)
unfolding move_zero run_alu
move_zero-Kept d m c = ground arith

move_r5-Kept : (d : Dest) (m : MaskInfo) (op : AluOp) (c : Cpu) → Kept c (move_r5 d m op c)
unfolding move_r5 run_alu
move_r5-Kept nowhere m op c = (refl, refl, refl, refl)
move_r5-Kept (into r) m op c = (refl, refl, refl, refl)

operate-Kept : (idx : ℕ) (d : Dest) (m : MaskInfo) (c : Cpu) → Kept c (operate idx d m c)
unfolding operate run_alu
operate-Kept idx d m c = ground (
  arith,
  move_zero-Kept d m c,
  move_r5-Kept d m AluOp.alu_add c,
  move_r5-Kept d m AluOp.alu_sub c,
)

finish_store-Kept : (c : Cpu) → Kept c (finish_store c)
unfolding finish_store
finish_store-Kept c = ground arith

finish_ram-Kept : (c : Cpu) → Kept c (finish_ram c)
unfolding finish_ram decode_ram_op finish_ram_write
finish_ram-Kept c = ground arith

exec_alu-Kept : (opcode : ℕ) (c : Cpu) → Kept c (exec_alu opcode c)
unfolding exec_alu
exec_alu-Kept opcode c =
    let m = Alu.mask_info (opcode / 256 % 16) in
    let code = opcode % 8 in
    let driven = drive_io (code == 1) c in
    let done = operate (opcode / 8 % 32) (alu_dest code) m driven in
    let moved = capture_mask m (record done { regs = exchange code m done.regs }) in
    let stored = finish_store moved in
    let (d, a, v, j) = operate-Kept (opcode / 8 % 32) (alu_dest code) m driven in
    let (d', a', v', j') = finish_store-Kept moved in
    let (d'', a'', v'', j'') = finish_ram-Kept stored in
    (d'' ∙ d' ∙ d, a'' ∙ a' ∙ a, v'' ∙ v' ∙ v, j'' ∙ j' ∙ j)

pub execute-Kept : (opcode : ℕ) (c : Cpu) → Kept c (execute opcode c)
unfolding execute
execute-Kept opcode c =
    let class = opcode / 256 % 16 in
    Kept-if (class == 0) c _ _ (exec_flag-Kept opcode c) (
      Kept-if (class == 8) c _ _ (exec_key-Kept opcode c)
        (Kept-if (class == 10) c _ _ (exec_control-Kept opcode c) (exec_alu-Kept opcode c)))
