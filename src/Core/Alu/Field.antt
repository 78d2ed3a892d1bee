-- ===== src/Core/Alu/Field.antt =====
-- `alu()` as a whole on a decimal field: the loop's three phases, and the sum and the difference.
use Prim.Native.Nat.{◌%◌}
use native.Mathlib.Nat.{mod-eq_of_lt, add-mod_right}
use calc_u.Base.{
  ℕ, zero, suc, ◌+◌, ◌-◌, ◌*◌, ◌^◌, ◌≤◌, ◌<◌, ◌≡◌, ◌∙◌, ap, inl, inr, Bool, false, arith, not, ◌&&◌,
  if◌then◌else◌, ◌==◌, leb, ltb,
}
use calc_u.Core.Alu.{
  Reg, Source, Dest, into, AluOp, alu_add, alu_sub, shifts, MaskInfo, AluState, operand, read,
  alu_digit, alu_loop, alu,
}
use calc_u.Core.Alu.Frame.{loop-append, loop_outside}
use calc_u.Core.Alu.Decimal.{value, IsBcd, value-lt, add_rounds, sub_rounds}

-- The number of digits in a field.
abbrev pub width : MaskInfo → ℕ
width m = m.stop + 1 - m.start

-- A decimal field: it leaves out the hexadecimal digit 0.
pub record IsDecimalField (m : MaskInfo) : Type 0 where
  pub low : 1 ≤ m.start
  pub ordered : m.start ≤ m.stop
  pub high : m.stop ≤ 15

module _ (dst : Dest) (src_x src_y : Source) (m : MaskInfo) (op : AluOp) (s : AluState) where
  -- The state when the loop reaches the field, and when it leaves it.
  unfoldable pub at_field : AluState
  at_field = alu_loop dst src_x src_y m op m.start 0 (record s { carry = 0; shl = 0 })

  unfoldable pub past_field : AluState
  past_field = alu_loop dst src_x src_y m op (width m) m.start at_field

  pub at_field_lem : (at_field.regs ≡ s.regs) × (at_field.cond ≡ s.cond)
  unfolding at_field
  at_field_lem =
      let h =
        loop_outside dst src_x src_y m op m.start 0 (record s { carry = 0; shl = 0 })
          (inl (omega arith)) in
      (h.0, h.2)

  alu-phases :
      m.start ≤ m.stop
      → m.stop ≤ 15
      → alu dst src_x src_y m op s
        ≡ alu_loop dst src_x src_y m op (15 - m.stop) (m.stop + 1) past_field
  unfolding alu at_field past_field
  alu-phases h k =
      let e : 16 ≡ m.start + (width m + (15 - m.stop)) = omega arith in
      ap (λ n. alu_loop dst src_x src_y m op n 0 (record s { carry = 0; shl = 0 })) e
      ∙ loop-append dst src_x src_y m op m.start (width m + (15 - m.stop)) 0 m.start
          (record s { carry = 0; shl = 0 }) (omega arith)
      ∙ loop-append dst src_x src_y m op (width m) (15 - m.stop) m.start (m.stop + 1) at_field
          (omega arith)

  pub alu-result :
      m.start ≤ m.stop
      → m.stop ≤ 15
      → ((alu dst src_x src_y m op s).regs ≡ past_field.regs)
        × ((alu dst src_x src_y m op s).cond ≡ past_field.cond)
  alu-result h k = rw (alu-phases h k) (
      let o =
        loop_outside dst src_x src_y m op (15 - m.stop) (m.stop + 1) past_field
          (inr (omega arith)) in
      (o.0, o.2))

  cond_kept :
      (i : ℕ) (u : AluState) → i < m.stop → (alu_digit dst src_x src_y m op i u).cond ≡ u.cond
  unfolding alu_digit
  cond_kept i u h = ground arith

  cond_last :
      (u : AluState)
      → m.start ≤ m.stop
      → let t = alu_digit dst src_x src_y m op m.stop u in
        t.cond ≡ (if not (shifts op) && t.carry == 1 then false else u.cond)
  unfolding alu_digit
  cond_last u h = ground arith

  -- COND is cleared by a carry out of the field's last digit, and by nothing else.
  loop_cond :
      (n i : ℕ) (u : AluState)
      → m.start ≤ i
      → i + n ≡ m.stop
      → let t = alu_loop dst src_x src_y m op (suc n) i u in
        t.cond ≡ (if not (shifts op) && t.carry == 1 then false else u.cond)
  unfolding alu_loop
  loop_cond zero i u h k = let e : i ≡ m.stop = omega arith in rw e (cond_last u (omega arith))
  loop_cond (suc n) i u h k =
      let t = alu_loop dst src_x src_y m op (suc (suc n)) i u in
      loop_cond n (suc i) (alu_digit dst src_x src_y m op i u) (omega arith) (omega arith)
      ∙ ap (λ (c : Bool). if not (shifts op) && t.carry == 1 then false else c)
          (cond_kept i u (omega arith))

  pub past_cond :
      m.start ≤ m.stop
      → past_field.cond ≡ (if not (shifts op) && past_field.carry == 1 then false else s.cond)
  unfolding past_field
  past_cond h =
      let e : width m ≡ suc (m.stop - m.start) = omega arith in
      rw e (loop_cond (m.stop - m.start) m.start at_field (omega arith) (omega arith))
      ∙ ap (λ (c : Bool). if not (shifts op) && past_field.carry == 1 then false else c)
          at_field_lem.1

-- A number below the modulus, with the carry out of it.
sum_mod : (v p c t : ℕ) → v + p * c ≡ t → v < p → c ≤ 1 → (v ≡ t % p) × ((c == 1) ≡ leb p t)
sum_mod v p zero t e h k =
    let d : t ≡ v = omega arith in
    (omega (arith, mod-eq_of_lt h, ap (λ (n : ℕ). n % p) d), ground arith)
sum_mod v p (suc zero) t e h k =
    let d : t ≡ v + p = omega arith in
    (omega (arith, mod-eq_of_lt h, add-mod_right v p, ap (λ (n : ℕ). n % p) d), ground arith)
sum_mod v p (suc (suc c)) t e h k = absurd (omega arith)

difference_mod :
    (v p c x y : ℕ)
    → v + y ≡ x + p * c
    → v < p
    → c ≤ 1
    → x < p
    → y < p
    → (v ≡ (x + p - y) % p) × ((c == 1) ≡ ltb x y)
difference_mod v p zero x y e h k i j =
    let d : x + p - y ≡ v + p = omega arith in
    (omega (arith, mod-eq_of_lt h, add-mod_right v p, ap (λ (n : ℕ). n % p) d), ground arith)
difference_mod v p (suc zero) x y e h k i j =
    let d : x + p - y ≡ v = omega arith in
    (omega (arith, mod-eq_of_lt h, ap (λ (n : ℕ). n % p) d), ground arith)
difference_mod v p (suc (suc c)) x y e h k i j = absurd (omega arith)

module _ (r : Reg) (src_x src_y : Source) (m : MaskInfo) (s : AluState) where
  -- The operands as numbers: the field of `srcX`, and that of `srcY` with the constant joined in.
  abbrev pub x_value : ℕ
  x_value = value (read s.regs src_x) m.start (width m)

  abbrev pub y_value : ℕ
  y_value = value (operand m (read s.regs src_y)) m.start (width m)

  -- Both operands hold decimal digits in the field.
  pub record HasBcdOperands : Type 0 where
    pub x_bcd : IsBcd (read s.regs src_x) m.start (width m)
    pub y_bcd : IsBcd (operand m (read s.regs src_y)) m.start (width m)

  same_x :
      (op : AluOp)
      → value (read (at_field (into r) src_x src_y m op s).regs src_x) m.start (width m) ≡ x_value
  same_x op = rw (at_field_lem (into r) src_x src_y m op s).0

  same_y :
      (op : AluOp)
      → value (operand m (read (at_field (into r) src_x src_y m op s).regs src_y)) m.start (width m)
        ≡ y_value
  same_y op = rw (at_field_lem (into r) src_x src_y m op s).0

  add_field :
      IsDecimalField m
      → HasBcdOperands
      → let p = past_field (into r) src_x src_y m alu_add s in
        (value (p.regs r) m.start (width m) + 10 ^ width m * p.carry ≡ x_value + y_value)
        × IsBcd (p.regs r) m.start (width m)
        × (p.carry ≤ 1)
  unfolding past_field
  add_field f b =
      let u = at_field (into r) src_x src_y m alu_add s in
      let same = (at_field_lem (into r) src_x src_y m alu_add s).0 in
      let rounds =
        add_rounds r src_x src_y m (width m) m.start u f.low (omega arith) (omega arith)
          (rw same b.x_bcd) (rw same b.y_bcd) (ground arith) (λ e. absurd (omega arith)) in
      let reset : (if m.start == m.start then 0 else u.carry) ≡ 0 = ground arith in
      (omega (arith, rounds.0, same_x alu_add, same_y alu_add, reset), rounds.1, rounds.2)

  sub_field :
      IsDecimalField m
      → HasBcdOperands
      → let p = past_field (into r) src_x src_y m alu_sub s in
        (value (p.regs r) m.start (width m) + y_value ≡ x_value + 10 ^ width m * p.carry)
        × IsBcd (p.regs r) m.start (width m)
        × (p.carry ≤ 1)
  unfolding past_field
  sub_field f b =
      let u = at_field (into r) src_x src_y m alu_sub s in
      let same = (at_field_lem (into r) src_x src_y m alu_sub s).0 in
      let rounds =
        sub_rounds r src_x src_y m (width m) m.start u f.low (omega arith) (omega arith)
          (rw same b.x_bcd) (rw same b.y_bcd) (ground arith) (λ e. absurd (omega arith)) in
      let reset : (if m.start == m.start then 0 else u.carry) ≡ 0 = ground arith in
      (omega (arith, rounds.0, same_x alu_sub, same_y alu_sub, reset), rounds.1, rounds.2)

  -- Addition in a decimal field: the sum modulo the field, and COND cleared by a carry out.
  pub alu-add :
      IsDecimalField m
      → HasBcdOperands
      → let t = alu (into r) src_x src_y m alu_add s in
        (value (t.regs r) m.start (width m) ≡ (x_value + y_value) % 10 ^ width m)
        × (t.cond ≡ (if leb (10 ^ width m) (x_value + y_value) then false else s.cond))
        × IsBcd (t.regs r) m.start (width m)
  alu-add f b =
      let p = past_field (into r) src_x src_y m alu_add s in
      let (regs, cond) = alu-result (into r) src_x src_y m alu_add s f.ordered f.high in
      let field = add_field f b in
      let total =
        sum_mod (value (p.regs r) m.start (width m)) (10 ^ width m) p.carry (x_value + y_value)
          field.0 (value-lt (p.regs r) m.start (width m) field.1) field.2 in
      (
        rw regs total.0,
        cond
            ∙ past_cond (into r) src_x src_y m alu_add s f.ordered
            ∙ ap (λ (t : Bool). if t then false else s.cond) total.1,
        rw regs field.1,
      )

  -- Subtraction in a decimal field: the difference modulo the field, and COND cleared by a borrow.
  pub alu-sub :
      IsDecimalField m
      → HasBcdOperands
      → let t = alu (into r) src_x src_y m alu_sub s in
        (value (t.regs r) m.start (width m) ≡ (x_value + 10 ^ width m - y_value) % 10 ^ width m)
        × (t.cond ≡ (if ltb x_value y_value then false else s.cond))
        × IsBcd (t.regs r) m.start (width m)
  alu-sub f b =
      let p = past_field (into r) src_x src_y m alu_sub s in
      let (regs, cond) = alu-result (into r) src_x src_y m alu_sub s f.ordered f.high in
      let field = sub_field f b in
      let total =
        difference_mod (value (p.regs r) m.start (width m)) (10 ^ width m) p.carry x_value y_value
          field.0 (value-lt (p.regs r) m.start (width m) field.1) field.2
          (value-lt (read s.regs src_x) m.start (width m) b.x_bcd)
          (value-lt (operand m (read s.regs src_y)) m.start (width m) b.y_bcd) in
      (
        rw regs total.0,
        cond
            ∙ past_cond (into r) src_x src_y m alu_sub s f.ordered
            ∙ ap (λ (t : Bool). if t then false else s.cond) total.1,
        rw regs field.1,
      )
