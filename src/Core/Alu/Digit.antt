-- ===== src/Core/Alu/Digit.antt =====
-- One BCD digit of the ALU: the carry rule of digits 1 to 15.
use calc_u.Base.{ℕ, ◌+◌, ◌*◌, ◌≤◌, ◌≡◌, arith}
use calc_u.Core.Alu.{alu_add, alu_sub, raw_sum, carry_out, corrected}

-- A decimal digit out of two and a carry.
pub add_digit :
    (i x y c : ℕ)
    → 1 ≤ i
    → x ≤ 9
    → y ≤ 9
    → c ≤ 1
    → (corrected alu_add i (raw_sum alu_add x y c) + 10 * carry_out i (raw_sum alu_add x y c)
        ≡ x + y + c)
      × (corrected alu_add i (raw_sum alu_add x y c) ≤ 9)
      × (carry_out i (raw_sum alu_add x y c) ≤ 1)
unfolding raw_sum carry_out corrected
add_digit i x y c h hx hy hc = ground arith

-- A decimal difference with a borrow.
pub sub_digit :
    (i x y c : ℕ)
    → 1 ≤ i
    → x ≤ 9
    → y ≤ 9
    → c ≤ 1
    → (corrected alu_sub i (raw_sum alu_sub x y c) + y + c
        ≡ x + 10 * carry_out i (raw_sum alu_sub x y c))
      × (corrected alu_sub i (raw_sum alu_sub x y c) ≤ 9)
      × (carry_out i (raw_sum alu_sub x y c) ≤ 1)
unfolding raw_sum carry_out corrected
sub_digit i x y c h hx hy hc = ground arith
