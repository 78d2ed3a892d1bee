-- ===== src/Core/Alu/Examples.antt =====
-- Runs of the ALU's theorems on the mantissa field of two registers.
use calc_u.Base.{
  ℕ, ◌+◌, ◌*◌, ◌^◌, ◌%◌, ◌-◌, ◌≤◌, ◌≡◌, refl, false, true, if◌then◌else◌, leb, ltb, arith,
}
use calc_u.Core.Alu.{
  ra, rb, Regs, MaskInfo, alu_add, alu_sub, alu_shl, Source, null, reg, into, AluState, alu, xch,
  read, operand,
}
use calc_u.Core.Alu.Decimal.{value, IsBcd}
use calc_u.Core.Alu.Field.{
  IsDecimalField, HasBcdOperands, width, x_value, y_value, alu-add, alu-sub,
}
use calc_u.Core.Alu.Outside.{alu-outside}
use calc_u.Core.Alu.Aliasing.{alu-snapshot}
use calc_u.Core.Alu.Shift.{summed, alu-shl}
use calc_u.Core.Alu.Exchange.{xch_lem}

-- Digits 3 to 15, without a constant.
abbrev mantissa : MaskInfo
mantissa = record { start = 3; stop = 15; cpos = 3; cval = 0 }

-- 7 in every digit of A, 5 in every digit of B.
abbrev two_numbers : Regs
two_numbers ra i = 7
two_numbers rb i = 5
two_numbers _ i = 0

abbrev before : AluState
before = record { regs = two_numbers; sout = λ i. 0; r5 = 0; cond = true; carry = 0; shl = 0 }

mantissa_is_decimal : IsDecimalField mantissa
mantissa_is_decimal = record { low = omega arith; ordered = omega arith; high = omega arith }

five : (j : ℕ) → operand mantissa (read two_numbers (reg rb)) j ≤ 9
five j = ground arith

operands_are_bcd : HasBcdOperands ra (reg ra) (reg rb) mantissa before
operands_are_bcd = record { x_bcd = λ j p q. omega arith; y_bcd = λ j p q. five j }

alu-add_example :
    let t = alu (into ra) (reg ra) (reg rb) mantissa alu_add before in
    let x = x_value ra (reg ra) (reg rb) mantissa before in
    let y = y_value ra (reg ra) (reg rb) mantissa before in
    (value (t.regs ra) 3 (width mantissa) ≡ (x + y) % 10 ^ width mantissa)
    × (t.cond ≡ (if leb (10 ^ width mantissa) (x + y) then false else true))
    × IsBcd (t.regs ra) 3 (width mantissa)
alu-add_example = alu-add ra (reg ra) (reg rb) mantissa before mantissa_is_decimal operands_are_bcd

alu-sub_example :
    let t = alu (into ra) (reg ra) (reg rb) mantissa alu_sub before in
    let x = x_value ra (reg ra) (reg rb) mantissa before in
    let y = y_value ra (reg ra) (reg rb) mantissa before in
    (value (t.regs ra) 3 (width mantissa) ≡ (x + 10 ^ width mantissa - y) % 10 ^ width mantissa)
    × (t.cond ≡ (if ltb x y then false else true))
    × IsBcd (t.regs ra) 3 (width mantissa)
alu-sub_example = alu-sub ra (reg ra) (reg rb) mantissa before mantissa_is_decimal operands_are_bcd

alu-outside_example :
    let t = alu (into ra) (reg ra) (reg rb) mantissa alu_add before in
    (t.regs ra 2 ≡ 7) × (t.sout 2 ≡ 0)
alu-outside_example =
    alu-outside (into ra) (reg ra) (reg rb) mantissa alu_add before ra 2 refl (omega arith)

alu-snapshot_example :
    alu (into ra) (reg ra) (reg ra) mantissa alu_add before
    ≡ alu
        (into ra)
        (Source.buffer (read two_numbers (reg ra)))
        (Source.buffer (read two_numbers (reg ra)))
        mantissa
        alu_add
        before
alu-snapshot_example = alu-snapshot (into ra) (reg ra) (reg ra) mantissa alu_add before

xch_lem_example : xch ra rb mantissa two_numbers ra 4 ≡ 5
xch_lem_example = xch_lem ra rb refl mantissa two_numbers ra 4 (omega arith)

-- SHL B: the operand comes in as `srcY`.
alu-shl_example :
    let t = alu (into ra) null (reg rb) mantissa alu_shl before in
    (value (t.regs ra) 3 (width mantissa)
      ≡ 10
        * value (summed ra null (reg rb) mantissa before) 3 (width mantissa)
        % 10 ^ width mantissa)
    × (t.cond ≡ true)
alu-shl_example =
    alu-shl ra null (reg rb) mantissa before mantissa_is_decimal (λ j p q. ground arith)
