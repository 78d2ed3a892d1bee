-- ===== src/Core/Alu/Exchange.antt =====
-- `xch()`: two different registers swap the digits of a field.
use calc_u.Base.{
  ℕ, zero, suc, ◌+◌, ◌-◌, ◌≤◌, ◌≡◌, refl, inl, inr, Bool, true, false, arith, if◌then◌else◌, ◌==◌,
  ◌&&◌, leb, ltb, Bool-cases,
}
use calc_u.Core.Alu.{
  Reg, Regs, same_reg, put, MaskInfo, in_field, xch, xch_loop, ra, rb, rc, rd, re,
}

same_reg_refl : (a : Reg) → same_reg a a ≡ true
same_reg_refl ra = refl
same_reg_refl rb = refl
same_reg_refl rc = refl
same_reg_refl rd = refl
same_reg_refl re = refl

-- Register `q`, digit `j`, of the registers with `a` and `b` swapped.
abbrev pub swapped : Reg → Reg → Regs → Regs
swapped a b rs q j = if same_reg q a then rs b j else if same_reg q b then rs a j else rs q j

same_reg-eq : (q a : Reg) → same_reg q a ≡ true → q ≡ a
same_reg-eq ra ra h = refl
same_reg-eq rb rb h = refl
same_reg-eq rc rc h = refl
same_reg-eq rd rd h = refl
same_reg-eq re re h = refl
same_reg-eq _ _ h = cc

same_reg-sym : (q a : Reg) → same_reg q a ≡ same_reg a q
same_reg-sym ra ra = refl
same_reg-sym ra _ = refl
same_reg-sym rb ra = refl
same_reg-sym rb _ = refl
same_reg-sym rc ra = refl
same_reg-sym rc _ = refl
same_reg-sym rd ra = refl
same_reg-sym rd _ = refl
same_reg-sym re ra = refl
same_reg-sym re _ = refl

module _ (a b : Reg) (ne : same_reg a b ≡ false) where
  xch_round :
      (i : ℕ) (rs : Regs) (q : Reg) (j : ℕ)
      → put (put rs a i (rs b i)) b i (rs a i) q j ≡ (if j == i then swapped a b rs q j else rs q j)
  xch_round i rs q j = elim (Bool-cases (same_reg q b)) [
    | inl e ↦ rw (same_reg-eq q b e, same_reg_refl b, same_reg-sym b a, ne) (ground arith)
    | inr e ↦ rw e (ground arith)
  ]

  abbrev in_range : ℕ → ℕ → ℕ → Bool
  in_range i n j = leb i j && ltb j (i + n)

  xch_loop_lem :
      (n i : ℕ) (rs : Regs) (q : Reg) (j : ℕ)
      → xch_loop a b n i rs q j ≡ (if in_range i n j then swapped a b rs q j else rs q j)
  unfolding xch_loop
  xch_loop_lem zero i rs q j = ground arith
  xch_loop_lem (suc n) i rs q j =
      let rs' = put (put rs a i (rs b i)) b i (rs a i) in
      rw
        (xch_loop_lem n (suc i) rs' q j, xch_round i rs q j, xch_round i rs a j, xch_round i rs b j)
        (ground arith)

  -- The exchange swaps the field's digits of two different registers, and nothing else.
  pub xch_lem :
      (m : MaskInfo) (rs : Regs) (q : Reg) (j : ℕ)
      → m.stop ≤ 15
      → xch a b m rs q j ≡ (if in_field m j then swapped a b rs q j else rs q j)
  unfolding xch
  xch_lem m rs q j h = ground (arith, xch_loop_lem (m.stop + 1 - m.start) m.start rs q j)

  -- Exchanging twice restores every digit.
  pub xch-xch :
      (m : MaskInfo) (rs : Regs) (q : Reg) (j : ℕ)
      → m.stop ≤ 15
      → xch a b m (xch a b m rs) q j ≡ rs q j
  xch-xch m rs q j h =
      rw
        (xch_lem m (xch a b m rs) q j h, xch_lem m rs q j h, xch_lem m rs a j h, xch_lem m rs b j h)
        (elim (Bool-cases (same_reg q a)) [
          | inl e ↦
              rw (same_reg-eq q a e, same_reg_refl a, same_reg_refl b, same_reg-sym b a, ne)
                (ground arith)
          | inr e ↦ elim (Bool-cases (same_reg q b)) [
            | inl k ↦
                rw (same_reg-eq q b k, same_reg_refl a, same_reg_refl b, same_reg-sym b a, ne)
                  (ground arith)
            | inr k ↦ rw (e, k) (ground arith)
          ]
        ])
