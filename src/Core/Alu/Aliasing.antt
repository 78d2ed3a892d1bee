-- ===== src/Core/Alu/Aliasing.antt =====
-- The source pointers may be the destination register itself. Each round reads its own digit
-- before it writes, so the operands may as well be copied first.
use calc_u.Base.{ℕ, zero, suc, ◌≤◌, ◌≡◌, refl, ◌∙◌, ap, arith}
use calc_u.Core.Alu.{
  Source, buffer, Dest, AluOp, MaskInfo, AluState, Nibbles, read, alu_digit, alu_loop, alu,
}
use calc_u.Core.Alu.Decimal.{read_above}

module _ (dst : Dest) (src_x src_y : Source) (f g : Nibbles) (m : MaskInfo) (op : AluOp) where
  digit-snapshot :
      (i : ℕ) (s : AluState)
      → read s.regs src_x i ≡ f i
      → read s.regs src_y i ≡ g i
      → alu_digit dst src_x src_y m op i s ≡ alu_digit dst (buffer f) (buffer g) m op i s
  unfolding alu_digit
  digit-snapshot i s h k = rw (h, k)

  loop-snapshot :
      (n i : ℕ) (s : AluState)
      → ((j : ℕ) → i ≤ j → read s.regs src_x j ≡ f j)
      → ((j : ℕ) → i ≤ j → read s.regs src_y j ≡ g j)
      → alu_loop dst src_x src_y m op n i s ≡ alu_loop dst (buffer f) (buffer g) m op n i s
  unfolding alu_loop
  loop-snapshot zero i s h k = refl
  loop-snapshot (suc n) i s h k =
      loop-snapshot n (suc i) (alu_digit dst src_x src_y m op i s)
        (λ j p. read_above dst src_x src_y m op i s src_x j p ∙ h j (omega arith))
        (λ j p. read_above dst src_x src_y m op i s src_y j p ∙ k j (omega arith))
      ∙ ap (alu_loop dst (buffer f) (buffer g) m op n (suc i))
          (digit-snapshot i s (h i (omega arith)) (k i (omega arith)))

-- An operation whose operands are the destination gives what it gives on copies of them.
pub alu-snapshot :
    (dst : Dest) (src_x src_y : Source) (m : MaskInfo) (op : AluOp) (s : AluState)
    → alu dst src_x src_y m op s
      ≡ alu dst (buffer (read s.regs src_x)) (buffer (read s.regs src_y)) m op s
unfolding alu
alu-snapshot dst src_x src_y m op s =
    loop-snapshot dst src_x src_y (read s.regs src_x) (read s.regs src_y) m op 16 0
      (record s { carry = 0; shl = 0 }) (λ j p. refl) (λ j p. refl)
