-- ===== src/Core/Alu/Shift.antt =====
-- The left shift of `alu()`: one digit to the left within the field, for any operands.
use native.Mathlib.Nat.{pow-suc, mod-eq_of_lt, add-mul-mod_self_left}
use calc_u.Base.{
  ℕ, zero, suc, ◌+◌, ◌*◌, ◌%◌, ◌^◌, ◌≤◌, ◌<◌, ◌≡◌, refl, sym, ◌∙◌, ap, arith, if◌then◌else◌, ◌==◌,
}
use calc_u.Core.Alu.{
  Reg, Source, into, alu_shl, MaskInfo, AluState, operand, read, write_digit, raw_sum, corrected,
  carry_out, alu_digit, alu_loop, alu,
}
use calc_u.Core.Alu.Frame.{loop_passed}
use calc_u.Core.Alu.Decimal.{value, IsBcd, value-lt, value-cong, read_above, IsBcd-cons}
use calc_u.Core.Alu.Field.{
  IsDecimalField, width, at_field, at_field_lem, past_field, past_cond, alu-result,
}

shl_digit :
    (i x y : ℕ)
    → 1 ≤ i
    → x + y ≤ 9
    → (corrected alu_shl i (raw_sum alu_shl x y 0) ≡ x + y)
      × (carry_out i (raw_sum alu_shl x y 0) ≡ 0)
unfolding raw_sum carry_out corrected
shl_digit i x y h k = ground arith

module _ (r : Reg) (src_x src_y : Source) (m : MaskInfo) where
  -- What a left shift moves up: the digits of both operands added, the constant joined in `srcY`.
  abbrev pub summed : AluState → ℕ → ℕ
  summed s i = read s.regs src_x i + operand m (read s.regs src_y) i

  summed_later :
      (i : ℕ) (s : AluState) (j : ℕ)
      → i < j
      → summed (alu_digit (into r) src_x src_y m alu_shl i s) j ≡ summed s j
  summed_later i s j h = rw (
    read_above (into r) src_x src_y m alu_shl i s src_x j h,
    read_above (into r) src_x src_y m alu_shl i s src_y j h,
  )

  shl_in : AluState → ℕ → ℕ
  shl_in s i = if i == m.start then 0 else s.shl

  carry_in : AluState → ℕ → ℕ
  carry_in s i = if i == m.start then 0 else s.carry

  shl_round :
      (i : ℕ) (s : AluState)
      → 1 ≤ i
      → m.start ≤ i
      → i ≤ m.stop
      → summed s i ≤ 9
      → carry_in s i ≡ 0
      → let t = alu_digit (into r) src_x src_y m alu_shl i s in
        (t.regs r i ≡ shl_in s i) × (t.carry ≡ 0) × (t.shl ≡ summed s i)
  unfolding alu_digit write_digit shl_in carry_in
  shl_round i s h1 h2 h3 hx hc =
      let x = read s.regs src_x i in
      let y = operand m (read s.regs src_y) i in rw hc (ground (arith, shl_digit i x y h1 hx))

  shl_rounds :
      (n i : ℕ) (s : AluState)
      → 1 ≤ i
      → m.start ≤ i
      → i + n ≤ m.stop + 1
      → IsBcd (summed s) i n
      → carry_in s i ≡ 0
      → shl_in s i ≤ 9
      → (n ≡ 0 → m.start < i)
      → let t = alu_loop (into r) src_x src_y m alu_shl n i s in
        (value (t.regs r) i n + 10 ^ n * t.shl ≡ shl_in s i + 10 * value (summed s) i n)
        × IsBcd (t.regs r) i n
        × (t.shl ≤ 9)
  unfolding alu_loop shl_in carry_in
  shl_rounds zero i s h1 h2 h3 hx hc hs hn =
      (ground (arith, hn refl), λ j p k. absurd (omega arith), ground (arith, hn refl))
  shl_rounds (suc n) i s h1 h2 h3 hx hc hs hn =
      let s' = alu_digit (into r) src_x src_y m alu_shl i s in
      let t = alu_loop (into r) src_x src_y m alu_shl n (suc i) s' in
      let first = shl_round i s h1 h2 (omega arith) (hx i (omega arith) (omega arith)) hc in
      let later : (j : ℕ) → suc i ≤ j → summed s' j ≡ summed s j = summed_later i s in
      let carry : (if suc i == m.start then 0 else s'.carry) ≡ 0 = ground arith in
      let shl : (if suc i == m.start then 0 else s'.shl) ≡ summed s i = ground arith in
      let ih =
        shl_rounds n (suc i) s' (omega arith) (omega arith) (omega arith)
          (λ j p k. omega (arith, later j p, hx j (omega arith) (omega arith))) carry
          (omega (arith, shl, hx i (omega arith) (omega arith))) (λ e. omega arith) in
      let kept : t.regs r i ≡ s'.regs r i =
        loop_passed (into r) src_x src_y m alu_shl n (suc i) s' r i (λ e. cc) (omega arith) in
      (
        omega (
          arith,
          ih.0,
          first,
          kept,
          shl,
          pow-suc 10 n,
          ap (λ (p : ℕ). p * t.shl) (pow-suc 10 n),
          value-cong (summed s') (summed s) (suc i) n later,
        ),
        IsBcd-cons (t.regs r) i n (omega (arith, kept, first, hs)) ih.1,
        ih.2,
      )

  -- In a decimal field whose digits in `srcX` and `srcY`, with the mask's constant joined in the
  -- latter, add up to at most 9 each, a left shift into a register multiplies the number of these
  -- sums by ten, drops the digit that leaves the field, and keeps COND.
  pub alu-shl :
      (s : AluState)
      → IsDecimalField m
      → IsBcd (summed s) m.start (width m)
      → let t = alu (into r) src_x src_y m alu_shl s in
        (value (t.regs r) m.start (width m)
          ≡ 10 * value (summed s) m.start (width m) % 10 ^ width m)
        × (t.cond ≡ s.cond)
  unfolding past_field shl_in carry_in
  alu-shl s f b =
      let u = at_field (into r) src_x src_y m alu_shl s in
      let p = past_field (into r) src_x src_y m alu_shl s in
      let same = (at_field_lem (into r) src_x src_y m alu_shl s).0 in
      let (regs, cond) = alu-result (into r) src_x src_y m alu_shl s f.ordered f.high in
      let carry : (if m.start == m.start then 0 else u.carry) ≡ 0 = ground arith in
      let shl : (if m.start == m.start then 0 else u.shl) ≡ 0 = ground arith in
      let rounds =
        shl_rounds (width m) m.start u f.low (omega arith) (omega arith) (rw same b) carry
          (omega (arith, shl)) (λ e. absurd (omega arith)) in
      let v : value (summed u) m.start (width m) ≡ value (summed s) m.start (width m) = rw same in
      let eq : value (p.regs r) m.start (width m) + 10 ^ width m * p.shl
          ≡ 10 * value (summed s) m.start (width m) =
        omega (arith, rounds.0, v, shl) in
      (
        rw regs (
            rw (← eq) (
              sym (
                add-mul-mod_self_left _ (10 ^ width m) p.shl
                ∙ mod-eq_of_lt (value-lt (p.regs r) m.start (width m) rounds.1)))),
        cond ∙ past_cond (into r) src_x src_y m alu_shl s f.ordered,
      )
