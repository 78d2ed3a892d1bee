-- ===== src/Core/Alu/Frame.antt =====
-- What one round of the ALU loop, and a run of rounds, leave alone.
use calc_u.Base.{
  ℕ, zero, suc, ◌+◌, ◌≤◌, ◌<◌, ◌≡◌, refl, ◌∙◌, ◌≢◌, ◌⊎◌, inl, inr, Bool, true, false, arith,
  if◌then◌else◌,
}
use Prim.Native.Nat.add
use calc_u.Core.Alu.{
  Regs, same_reg, Reg, Source, Dest, nowhere, into, AluOp, alu_add, alu_shl, alu_sub, alu_shr,
  MaskInfo, AluState, in_field, write_digit, alu_digit, alu_loop,
}

write-above :
    (dst : Dest) (op : AluOp) (m : MaskInfo) (i sum shl shr : ℕ) (rs : Regs) (q : Reg) (j : ℕ)
    → i < j
    → write_digit dst op m i sum shl shr rs q j ≡ rs q j
unfolding write_digit
write-above nowhere op m i sum shl shr rs q j h = refl
write-above (into r) alu_add m i sum shl shr rs q j h = ground arith
write-above (into r) alu_sub m i sum shl shr rs q j h = ground arith
write-above (into r) alu_shl m i sum shl shr rs q j h = ground arith
write-above (into r) alu_shr m i sum shl shr rs q j h = ground arith

write-below :
    (dst : Dest) (op : AluOp) (m : MaskInfo) (i sum shl shr : ℕ) (rs : Regs) (q : Reg) (j : ℕ)
    → suc j < i
    → write_digit dst op m i sum shl shr rs q j ≡ rs q j
unfolding write_digit
write-below nowhere op m i sum shl shr rs q j h = refl
write-below (into r) alu_add m i sum shl shr rs q j h = ground arith
write-below (into r) alu_sub m i sum shl shr rs q j h = ground arith
write-below (into r) alu_shl m i sum shl shr rs q j h = ground arith
write-below (into r) alu_shr m i sum shl shr rs q j h = ground arith

-- Only a right shift writes the digit below the current one.
write-at :
    (dst : Dest) (op : AluOp) (m : MaskInfo) (i sum shl shr : ℕ) (rs : Regs) (q : Reg) (j : ℕ)
    → op ≢ alu_shr
    → j < i
    → write_digit dst op m i sum shl shr rs q j ≡ rs q j
unfolding write_digit
write-at nowhere op m i sum shl shr rs q j ne h = refl
write-at (into r) alu_add m i sum shl shr rs q j ne h = ground arith
write-at (into r) alu_sub m i sum shl shr rs q j ne h = ground arith
write-at (into r) alu_shl m i sum shl shr rs q j ne h = ground arith
write-at (into r) alu_shr m i sum shl shr rs q j ne h = absurd (ne refl)

pub write-other :
    (r : Reg) (op : AluOp) (m : MaskInfo) (i sum shl shr : ℕ) (rs : Regs) (q : Reg) (j : ℕ)
    → same_reg q r ≡ false
    → write_digit (into r) op m i sum shl shr rs q j ≡ rs q j
unfolding write_digit
write-other r alu_add m i sum shl shr rs q j h = ground arith
write-other r alu_sub m i sum shl shr rs q j h = ground arith
write-other r alu_shl m i sum shl shr rs q j h = ground arith
write-other r alu_shr m i sum shl shr rs q j h = ground arith

-- A store under a test, where the store does not reach the digit.
pub if_store :
    (t : Bool) (f g : Regs) (q : Reg) (j : ℕ) → f q j ≡ g q j → (if t then f else g) q j ≡ g q j
if_store true f g q j h = h
if_store false f g q j h = refl

module _ (dst : Dest) (src_x src_y : Source) (m : MaskInfo) (op : AluOp) where
  -- A round writes no digit above its own.
  pub digit_above :
      (i : ℕ) (s : AluState) (q : Reg) (j : ℕ)
      → i < j
      → (alu_digit dst src_x src_y m op i s).regs q j ≡ s.regs q j
  unfolding alu_digit
  digit_above i s q j h =
      if_store (in_field m i) _ s.regs q j (write-above dst op m i _ _ _ s.regs q j h)

  pub digit_below :
      (i : ℕ) (s : AluState) (q : Reg) (j : ℕ)
      → suc j < i
      → (alu_digit dst src_x src_y m op i s).regs q j ≡ s.regs q j
  unfolding alu_digit
  digit_below i s q j h =
      if_store (in_field m i) _ s.regs q j (write-below dst op m i _ _ _ s.regs q j h)

  pub digit_passed :
      (i : ℕ) (s : AluState) (q : Reg) (j : ℕ)
      → op ≢ alu_shr
      → j < i
      → (alu_digit dst src_x src_y m op i s).regs q j ≡ s.regs q j
  unfolding alu_digit
  digit_passed i s q j ne h =
      if_store (in_field m i) _ s.regs q j (write-at dst op m i _ _ _ s.regs q j ne h)

  pub loop_passed :
      (n i : ℕ) (s : AluState) (q : Reg) (j : ℕ)
      → op ≢ alu_shr
      → j < i
      → (alu_loop dst src_x src_y m op n i s).regs q j ≡ s.regs q j
  unfolding alu_loop
  loop_passed zero i s q j ne h = refl
  loop_passed (suc n) i s q j ne h =
      loop_passed n (suc i) (alu_digit dst src_x src_y m op i s) q j ne (omega arith)
      ∙ digit_passed i s q j ne h

  pub loop_below :
      (n i : ℕ) (s : AluState) (q : Reg) (j : ℕ)
      → suc j < i
      → (alu_loop dst src_x src_y m op n i s).regs q j ≡ s.regs q j
  unfolding alu_loop
  loop_below zero i s q j h = refl
  loop_below (suc n) i s q j h =
      loop_below n (suc i) (alu_digit dst src_x src_y m op i s) q j (omega arith)
      ∙ digit_below i s q j h

  pub digit_outside :
      (i : ℕ) (s : AluState)
      → in_field m i ≡ false
      → ((alu_digit dst src_x src_y m op i s).regs ≡ s.regs)
        × ((alu_digit dst src_x src_y m op i s).r5 ≡ s.r5)
        × ((alu_digit dst src_x src_y m op i s).cond ≡ s.cond)
  unfolding alu_digit
  digit_outside i s h = rw h (refl, refl, refl)

  pub loop-append :
      (a b i j : ℕ) (s : AluState)
      → i + a ≡ j
      → alu_loop dst src_x src_y m op (a + b) i s
        ≡ alu_loop dst src_x src_y m op b j (alu_loop dst src_x src_y m op a i s)
  unfolding alu_loop
  loop-append zero b i j s e = let e' : i ≡ j = omega arith in rw (add.zero, e')
  loop-append (suc a) b i j s e =
      rw add.suc (loop-append a b (suc i) j (alu_digit dst src_x src_y m op i s) (omega arith))

  -- Rounds below the field or above it leave the registers, R5 and COND alone.
  pub loop_outside :
      (n i : ℕ) (s : AluState)
      → (i + n ≤ m.start) ⊎ (m.stop < i)
      → ((alu_loop dst src_x src_y m op n i s).regs ≡ s.regs)
        × ((alu_loop dst src_x src_y m op n i s).r5 ≡ s.r5)
        × ((alu_loop dst src_x src_y m op n i s).cond ≡ s.cond)
  unfolding alu_loop
  loop_outside zero i s h = (refl, refl, refl)
  loop_outside (suc n) i s h =
      let (a, b, c) = digit_outside i s (out h) in
      let (d, e, f) = loop_outside n (suc i) (alu_digit dst src_x src_y m op i s) (later h) in
      (d ∙ a, e ∙ b, f ∙ c)
    where
      out : (i + suc n ≤ m.start) ⊎ (m.stop < i) → in_field m i ≡ false
      out k = ground arith

      later : (i + suc n ≤ m.start) ⊎ (m.stop < i) → (suc i + n ≤ m.start) ⊎ (m.stop < suc i)
      later (inl k) = inl (omega arith)
      later (inr k) = inr (omega arith)
