-- ===== src/Core/Alu/ShiftRight.antt =====
-- The right shift of `alu()`, digit by digit, for any operands.
use mathlib.Core.Path.{subst}
use calc_u.Base.{
  ℕ, zero, suc, ◌+◌, ◌≤◌, ◌<◌, ◌≡◌, sym, ◌∙◌, ap, inl, inr, arith, if◌then◌else◌, ◌==◌, bit_or,
  Bool-cases, ==_iff,
}
use calc_u.Core.Alu.{
  Reg, Source, into, alu_shr, MaskInfo, AluState, operand, read, write_digit, alu_digit, alu_loop,
  alu,
}
use calc_u.Core.Alu.Frame.{loop_below, loop_outside}
use calc_u.Core.Alu.Decimal.{read_above}
use calc_u.Core.Alu.Field.{past_cond, alu-result}

module _ (r : Reg) (src_x src_y : Source) (m : MaskInfo) where
  -- What a right shift moves down: both operands joined.
  abbrev pub joined : AluState → ℕ → ℕ
  joined s i = bit_or (operand m (read s.regs src_y) i) (read s.regs src_x i)

  shr_moves :
      (i : ℕ) (s : AluState) (j : ℕ)
      → i ≡ suc j
      → m.start ≤ j
      → suc j ≤ m.stop
      → (alu_digit (into r) src_x src_y m alu_shr i s).regs r j ≡ joined s (suc j)
  unfolding alu_digit write_digit
  shr_moves i s j e h k = rw e (ground arith)

  shr_clears :
      (i : ℕ) (s : AluState)
      → i ≡ m.stop
      → m.start ≤ i
      → (alu_digit (into r) src_x src_y m alu_shr i s).regs r i ≡ 0
  unfolding alu_digit write_digit
  shr_clears i s e h = ground arith

  joined_later :
      (i : ℕ) (s : AluState) (j : ℕ)
      → i < j
      → joined (alu_digit (into r) src_x src_y m alu_shr i s) j ≡ joined s j
  joined_later i s j h = rw (
    read_above (into r) src_x src_y m alu_shr i s src_x j h,
    read_above (into r) src_x src_y m alu_shr i s src_y j h,
  )

  shr_loop :
      (n i : ℕ) (s : AluState) (j : ℕ)
      → i ≤ suc j
      → suc j < i + n
      → m.start ≤ j
      → suc j ≤ m.stop
      → (alu_loop (into r) src_x src_y m alu_shr n i s).regs r j ≡ joined s (suc j)
  unfolding alu_loop
  shr_loop zero i s j h k l o = absurd (omega arith)
  shr_loop (suc n) i s j h k l o =
      let s' = alu_digit (into r) src_x src_y m alu_shr i s in
      elim (Bool-cases (i == suc j)) [
        | inl e ↦
            loop_below (into r) src_x src_y m alu_shr n (suc i) s' r j (ground arith)
            ∙ shr_moves i s j ((==_iff i (suc j)).0 e) l o
        | inr e ↦
            shr_loop n (suc i) s' j (ground arith) (omega arith) l o
            ∙ joined_later i s (suc j) (ground arith)
      ]

  shr_top :
      (n i : ℕ) (s : AluState)
      → i ≤ m.stop
      → m.stop < i + n
      → m.start ≤ m.stop
      → (alu_loop (into r) src_x src_y m alu_shr n i s).regs r m.stop ≡ 0
  unfolding alu_loop
  shr_top zero i s h k l = absurd (omega arith)
  shr_top (suc n) i s h k l =
      let s' = alu_digit (into r) src_x src_y m alu_shr i s in
      elim (Bool-cases (i == m.stop)) [
        | inl e ↦
            let e' : i ≡ m.stop = (==_iff i m.stop).0 e in
            ap (λ f. f r m.stop)
              (loop_outside (into r) src_x src_y m alu_shr n (suc i) s' (inr (omega arith))).0
            ∙ subst (λ k. s'.regs r k ≡ 0) e' (shr_clears i s e' (omega arith))
        | inr e ↦ shr_top n (suc i) s' (ground arith) (omega arith) l
      ]

  -- A right shift puts 0 into the field's last digit, and into each other digit the operands' next
  -- digit, joined by OR; it keeps COND.
  pub alu-shr :
      (s : AluState) (j : ℕ)
      → m.start ≤ j
      → j ≤ m.stop
      → m.stop ≤ 15
      → let t = alu (into r) src_x src_y m alu_shr s in
        (t.regs r j ≡ (if j == m.stop then 0 else joined s (suc j))) × (t.cond ≡ s.cond)
  unfolding alu
  alu-shr s j h k l =
      let u = record s { carry = 0; shl = 0 } in
      let (regs, cond) = alu-result (into r) src_x src_y m alu_shr s (omega arith) l in
      (
        elim (Bool-cases (j == m.stop)) [
          | inl e ↦ rw e (
              subst (λ i. (alu_loop (into r) src_x src_y m alu_shr 16 0 u).regs r i ≡ 0)
                (sym ((==_iff j m.stop).0 e))
                (shr_top 16 0 u (omega arith) (omega arith) (omega arith)))
          | inr e ↦ rw e (shr_loop 16 0 u j (ground arith) (ground arith) h (ground arith))
        ],
        cond ∙ past_cond (into r) src_x src_y m alu_shr s (omega arith),
      )
