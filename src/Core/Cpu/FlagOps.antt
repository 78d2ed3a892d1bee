-- ===== src/Core/Cpu/FlagOps.antt =====
-- Opcodes 0x00xx: the flag registers fA and fB and single bits of KR.
pub mod Laws
use calc_u.Base.{
  ℕ, ◌*◌, ◌/◌, ◌%◌, ◌^◌, Bool, true, false, not, ◌&&◌, if◌then◌else◌, ◌==◌, bit_and, bit_or,
  bit_xor, any_bit, clear16, u16,
}
use calc_u.Core.Cpu.State.{Cpu, Flags, clear_cond_if}

-- Bits 7 to 4 of the opcode: the flag that is meant.
abbrev pub flag_bit : ℕ → ℕ
flag_bit opcode = opcode / 16 % 16

-- `(f & ~0x001E) | ((R5 & 0x0F) << 1)`
abbrev pub insert_r5 : ℕ → ℕ → ℕ
insert_r5 f r5 = bit_or (clear16 f 0x001E) (r5 % 16 * 2)

unfoldable pub exec_flag : ℕ → Cpu → Cpu
exec_flag opcode c =
    let mask = 2 ^ flag_bit opcode in
    let sub = opcode % 16 in
    let fa = c.fa in
    let fb = c.fb in
    let differ = any_bit (bit_xor fa fb) mask in
    if sub == 0
    then clear_cond_if (any_bit fa mask) c
    else if sub == 1
    then record c { fa = bit_or fa mask }
    else if sub == 2
    then record c { fa = clear16 fa mask }
    else if sub == 3
    then record c { fa = bit_xor fa mask }
    else if sub == 4
    then if differ then record c { fa = bit_xor fa mask; fb = bit_xor fb mask } else c
    else if sub == 5
    then record c { kr = bit_or (c.kr) mask }
    else if sub == 6
    then if differ then record c { fa = bit_xor fa mask } else c
    else if sub == 7
    then record c { fa = insert_r5 fa c.r5 }
    else if sub == 8
    then clear_cond_if (any_bit fb mask) c
    else if sub == 9
    then record c { fb = bit_or fb mask }
    else if sub == 10
    then record c { fb = clear16 fb mask }
    else if sub == 11
    then record c { fb = bit_xor fb mask }
    else if sub == 12
    then clear_cond_if (not differ) c
    else if sub == 13
    then record c { kr = clear16 (c.kr) mask }
    else if sub == 14
    then if differ then record c { fb = bit_xor fb mask } else c
    else record c { fb = insert_r5 fb c.r5 }
