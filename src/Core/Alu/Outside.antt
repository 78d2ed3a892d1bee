-- ===== src/Core/Alu/Outside.antt =====
-- What `alu()` leaves alone: the digits outside the field, and the other registers.
use calc_u.Base.{
  ℕ, zero, suc, ◌+◌, ◌≤◌, ◌<◌, ◌≡◌, refl, ◌∙◌, ◌⊎◌, inl, inr, true, false, arith, Bool-cases, leb,
}
use calc_u.Core.Alu.{
  Regs, Reg, Source, Dest, nowhere, into, AluOp, alu_add, alu_shl, alu_sub, alu_shr, MaskInfo,
  AluState, in_field, same_reg, write_digit, alu_digit, alu_loop, alu,
}
use calc_u.Core.Alu.Frame.{if_store, write-other}

write-outside :
    (dst : Dest) (op : AluOp) (m : MaskInfo) (i sum shl shr : ℕ) (rs : Regs) (q : Reg) (j : ℕ)
    → in_field m i ≡ true
    → in_field m j ≡ false
    → write_digit dst op m i sum shl shr rs q j ≡ rs q j
unfolding write_digit
write-outside nowhere op m i sum shl shr rs q j h k = refl
write-outside (into r) alu_add m i sum shl shr rs q j h k = ground arith
write-outside (into r) alu_sub m i sum shl shr rs q j h k = ground arith
write-outside (into r) alu_shl m i sum shl shr rs q j h k = ground arith
write-outside (into r) alu_shr m i sum shl shr rs q j h k = ground arith

-- The registers that are not the destination.
abbrev pub IsOther : Dest → Reg → Type 0
IsOther nowhere q = Unit {0}
IsOther (into r) q = same_reg q r ≡ false

write-IsOther :
    (dst : Dest) (op : AluOp) (m : MaskInfo) (i sum shl shr : ℕ) (rs : Regs) (q : Reg) (j : ℕ)
    → IsOther dst q
    → write_digit dst op m i sum shl shr rs q j ≡ rs q j
unfolding write_digit
write-IsOther nowhere op m i sum shl shr rs q j h = refl
write-IsOther (into r) op m i sum shl shr rs q j h = write-other r op m i sum shl shr rs q j h

module _ (dst : Dest) (src_x src_y : Source) (m : MaskInfo) (op : AluOp) where
  loop_outside_digit :
      (n i : ℕ) (s : AluState) (q : Reg) (j : ℕ)
      → (in_field m j ≡ false) ⊎ IsOther dst q
      → (alu_loop dst src_x src_y m op n i s).regs q j ≡ s.regs q j
  unfolding alu_loop alu_digit
  loop_outside_digit zero i s q j h = refl
  loop_outside_digit (suc n) i s q j h =
      loop_outside_digit n (suc i) (alu_digit dst src_x src_y m op i s) q j h ∙ one h
    where
      one :
          (in_field m j ≡ false) ⊎ IsOther dst q
          → (alu_digit dst src_x src_y m op i s).regs q j ≡ s.regs q j
      one (inr o) =
          if_store (in_field m i) _ s.regs q j (write-IsOther dst op m i _ _ _ s.regs q j o)
      one (inl k) = elim (Bool-cases (in_field m i)) [
        | inl e ↦
            if_store (in_field m i) _ s.regs q j (write-outside dst op m i _ _ _ s.regs q j e k)
        | inr e ↦ rw e
      ]

  loop_sout_passed :
      (n i : ℕ) (s : AluState) (j : ℕ)
      → j < i
      → (alu_loop dst src_x src_y m op n i s).sout j ≡ s.sout j
  unfolding alu_loop alu_digit
  loop_sout_passed zero i s j h = refl
  loop_sout_passed (suc n) i s j h =
      loop_sout_passed n (suc i) (alu_digit dst src_x src_y m op i s) j (omega arith) ∙ ground arith

  loop_sout :
      (n i : ℕ) (s : AluState) (j : ℕ)
      → in_field m j ≡ false
      → i ≤ j
      → j < i + n
      → (alu_loop dst src_x src_y m op n i s).sout j ≡ 0
  unfolding alu_loop alu_digit
  loop_sout zero i s j k h l = absurd (omega arith)
  loop_sout (suc n) i s j k h l = elim (Bool-cases (leb (suc i) j)) [
    | inl e ↦
        loop_sout n (suc i) (alu_digit dst src_x src_y m op i s) j k (ground arith) (omega arith)
    | inr e ↦
        loop_sout_passed n (suc i) (alu_digit dst src_x src_y m op i s) j (ground arith)
        ∙ ground arith
  ]

  -- Outside the field `alu()` changes no digit of any register and drives Sout to 0.
  pub alu-outside :
      (s : AluState) (q : Reg) (j : ℕ)
      → in_field m j ≡ false
      → j < 16
      → ((alu dst src_x src_y m op s).regs q j ≡ s.regs q j)
        × ((alu dst src_x src_y m op s).sout j ≡ 0)
  unfolding alu
  alu-outside s q j k l = (
    loop_outside_digit 16 0 (record s { carry = 0; shl = 0 }) q j (inl k),
    loop_sout 16 0 (record s { carry = 0; shl = 0 }) j k (omega arith) (omega arith),
  )

  -- A register that is not the destination keeps every digit.
  pub alu-IsOther :
      (s : AluState) (q : Reg) (j : ℕ)
      → IsOther dst q
      → (alu dst src_x src_y m op s).regs q j ≡ s.regs q j
  unfolding alu
  alu-IsOther s q j h = loop_outside_digit 16 0 (record s { carry = 0; shl = 0 }) q j (inr h)
