-- ===== src/Core/Alu/Decimal.antt =====
-- The ALU on a decimal field: the digits of the field as one number, least significant first.
use calc_u.Base.{
  ℕ, zero, suc, ◌+◌, ◌*◌, ◌^◌, ◌≤◌, ◌<◌, ◌≡◌, refl, ap, inl, inr, arith, if◌then◌else◌, ◌==◌,
  Bool-cases, ==_iff,
}
use native.Mathlib.Nat.{pow-suc}
use calc_u.Core.Alu.{
  Reg, Source, null, reg, buffer, Dest, into, AluOp, alu_add, alu_sub, MaskInfo, AluState, operand,
  read, write_digit, alu_digit, alu_loop, Nibbles,
}
use calc_u.Core.Alu.Frame.{digit_above, loop_passed}
use calc_u.Core.Alu.Digit.{add_digit, sub_digit}

-- The number that `n` digits from `lo` on stand for.
abbrev pub value : Nibbles → ℕ → ℕ → ℕ
value f lo zero = 0
value f lo (suc n) = f lo + 10 * value f (suc lo) n

-- Digits from `lo` on, `n` of them, are decimal.
abbrev pub IsBcd : Nibbles → ℕ → ℕ → Type 0
IsBcd f lo n = (j : ℕ) → lo ≤ j → j < lo + n → f j ≤ 9

pub value-cong :
    (f g : Nibbles) (lo n : ℕ) → ((j : ℕ) → lo ≤ j → f j ≡ g j) → value f lo n ≡ value g lo n
value-cong f g lo zero h = refl
value-cong f g lo (suc n) h =
    omega (arith, h lo (omega arith), value-cong f g (suc lo) n (λ j p. h j (omega arith)))

pub read_above :
    (dst : Dest) (src_x src_y : Source) (m : MaskInfo) (op : AluOp) (i : ℕ) (s : AluState)
    (src : Source) (j : ℕ)
    → i < j
    → read (alu_digit dst src_x src_y m op i s).regs src j ≡ read s.regs src j
read_above dst src_x src_y m op i s null j h = refl
read_above dst src_x src_y m op i s (reg r) j h = digit_above dst src_x src_y m op i s r j h
read_above dst src_x src_y m op i s (buffer f) j h = refl

pub value-lt : (f : Nibbles) (lo n : ℕ) → IsBcd f lo n → value f lo n < 10 ^ n
value-lt f lo zero h = omega arith
value-lt f lo (suc n) h = omega (
  arith,
  pow-suc 10 n,
  h lo (omega arith) (omega arith),
  value-lt f (suc lo) n (λ j p q. h j (omega arith) (omega arith)),
)

-- A decimal digit below decimal digits.
pub IsBcd-cons : (f : Nibbles) (i n : ℕ) → f i ≤ 9 → IsBcd f (suc i) n → IsBcd f i (suc n)
IsBcd-cons f i n h t j p q = elim (Bool-cases (j == i)) [
  | inl e ↦ rw ((==_iff j i).0 e) h
  | inr e ↦ t j (ground arith) (omega arith)
]

module _ (r : Reg) (src_x src_y : Source) (m : MaskInfo) where
  -- The carry that reaches digit `i`: the field's first digit starts afresh.
  abbrev carry_in : AluState → ℕ → ℕ
  carry_in s i = if i == m.start then 0 else s.carry

  abbrev xs : AluState → Nibbles
  xs s = read s.regs src_x

  abbrev ys : AluState → Nibbles
  ys s = operand m (read s.regs src_y)

  add_round :
      (i : ℕ) (s : AluState)
      → 1 ≤ i
      → m.start ≤ i
      → i ≤ m.stop
      → xs s i ≤ 9
      → ys s i ≤ 9
      → carry_in s i ≤ 1
      → let t = alu_digit (into r) src_x src_y m alu_add i s in
        (t.regs r i + 10 * t.carry ≡ xs s i + ys s i + carry_in s i)
        × (t.regs r i ≤ 9)
        × (t.carry ≤ 1)
  unfolding alu_digit write_digit
  add_round i s h1 h2 h3 hx hy hc =
      ground (arith, add_digit i (xs s i) (ys s i) (carry_in s i) h1 hx hy hc)

  sub_round :
      (i : ℕ) (s : AluState)
      → 1 ≤ i
      → m.start ≤ i
      → i ≤ m.stop
      → xs s i ≤ 9
      → ys s i ≤ 9
      → carry_in s i ≤ 1
      → let t = alu_digit (into r) src_x src_y m alu_sub i s in
        (t.regs r i + ys s i + carry_in s i ≡ xs s i + 10 * t.carry)
        × (t.regs r i ≤ 9)
        × (t.carry ≤ 1)
  unfolding alu_digit write_digit
  sub_round i s h1 h2 h3 hx hy hc =
      ground (arith, sub_digit i (xs s i) (ys s i) (carry_in s i) h1 hx hy hc)

  -- A round at `i` leaves the operands of the later digits as they were.
  xs_later :
      (op : AluOp) (i : ℕ) (s : AluState) (j : ℕ)
      → i < j
      → xs (alu_digit (into r) src_x src_y m op i s) j ≡ xs s j
  xs_later op i s j p = read_above (into r) src_x src_y m op i s src_x j p

  ys_later :
      (op : AluOp) (i : ℕ) (s : AluState) (j : ℕ)
      → i < j
      → ys (alu_digit (into r) src_x src_y m op i s) j ≡ ys s j
  ys_later op i s j p = ground (arith, read_above (into r) src_x src_y m op i s src_y j p)

  xs-IsBcd :
      (op : AluOp) (i n : ℕ) (s : AluState)
      → IsBcd (xs s) i (suc n)
      → IsBcd (xs (alu_digit (into r) src_x src_y m op i s)) (suc i) n
  xs-IsBcd op i n s h j p q = omega (arith, xs_later op i s j p, h j (omega arith) (omega arith))

  ys-IsBcd :
      (op : AluOp) (i n : ℕ) (s : AluState)
      → IsBcd (ys s) i (suc n)
      → IsBcd (ys (alu_digit (into r) src_x src_y m op i s)) (suc i) n
  ys-IsBcd op i n s h j p q = omega (arith, ys_later op i s j p, h j (omega arith) (omega arith))

  pub add_rounds :
      (n i : ℕ) (s : AluState)
      → 1 ≤ i
      → m.start ≤ i
      → i + n ≤ m.stop + 1
      → IsBcd (xs s) i n
      → IsBcd (ys s) i n
      → carry_in s i ≤ 1
      → (n ≡ 0 → m.start < i)
      → let t = alu_loop (into r) src_x src_y m alu_add n i s in
        (value (t.regs r) i n + 10 ^ n * t.carry
          ≡ value (xs s) i n + value (ys s) i n + carry_in s i)
        × IsBcd (t.regs r) i n
        × (t.carry ≤ 1)
  unfolding alu_loop
  add_rounds zero i s h1 h2 h3 hx hy hc hz =
      (ground (arith, hz refl), λ j p q. absurd (omega arith), ground (arith, hz refl))
  add_rounds (suc n) i s h1 h2 h3 hx hy hc hz =
      let s' = alu_digit (into r) src_x src_y m alu_add i s in
      let t = alu_loop (into r) src_x src_y m alu_add n (suc i) s' in
      let first =
        add_round i s h1 h2 (omega arith) (hx i (omega arith) (omega arith))
          (hy i (omega arith) (omega arith)) hc in
      let past : carry_in s' (suc i) ≡ s'.carry = ground arith in
      let ih =
        add_rounds n (suc i) s' (omega arith) (omega arith) (omega arith)
          (xs-IsBcd alu_add i n s hx) (ys-IsBcd alu_add i n s hy) (omega (arith, past, first))
          (λ _. omega arith) in
      let kept : t.regs r i ≡ s'.regs r i =
        loop_passed (into r) src_x src_y m alu_add n (suc i) s' r i (λ e. cc) (omega arith) in
      (
        omega (
          arith,
          ih.0,
          first,
          kept,
          past,
          pow-suc 10 n,
          ap (λ (p : ℕ). p * t.carry) (pow-suc 10 n),
          value-cong (xs s') (xs s) (suc i) n (xs_later alu_add i s),
          value-cong (ys s') (ys s) (suc i) n (ys_later alu_add i s),
        ),
        IsBcd-cons (t.regs r) i n (omega (arith, kept, first)) ih.1,
        ih.2,
      )

  pub sub_rounds :
      (n i : ℕ) (s : AluState)
      → 1 ≤ i
      → m.start ≤ i
      → i + n ≤ m.stop + 1
      → IsBcd (xs s) i n
      → IsBcd (ys s) i n
      → carry_in s i ≤ 1
      → (n ≡ 0 → m.start < i)
      → let t = alu_loop (into r) src_x src_y m alu_sub n i s in
        (value (t.regs r) i n + value (ys s) i n + carry_in s i
          ≡ value (xs s) i n + 10 ^ n * t.carry)
        × IsBcd (t.regs r) i n
        × (t.carry ≤ 1)
  unfolding alu_loop
  sub_rounds zero i s h1 h2 h3 hx hy hc hz =
      (ground (arith, hz refl), λ j p q. absurd (omega arith), ground (arith, hz refl))
  sub_rounds (suc n) i s h1 h2 h3 hx hy hc hz =
      let s' = alu_digit (into r) src_x src_y m alu_sub i s in
      let t = alu_loop (into r) src_x src_y m alu_sub n (suc i) s' in
      let first =
        sub_round i s h1 h2 (omega arith) (hx i (omega arith) (omega arith))
          (hy i (omega arith) (omega arith)) hc in
      let past : carry_in s' (suc i) ≡ s'.carry = ground arith in
      let ih =
        sub_rounds n (suc i) s' (omega arith) (omega arith) (omega arith)
          (xs-IsBcd alu_sub i n s hx) (ys-IsBcd alu_sub i n s hy) (omega (arith, past, first))
          (λ _. omega arith) in
      let kept : t.regs r i ≡ s'.regs r i =
        loop_passed (into r) src_x src_y m alu_sub n (suc i) s' r i (λ e. cc) (omega arith) in
      (
        omega (
          arith,
          ih.0,
          first,
          kept,
          past,
          pow-suc 10 n,
          ap (λ (p : ℕ). p * t.carry) (pow-suc 10 n),
          value-cong (xs s') (xs s) (suc i) n (xs_later alu_sub i s),
          value-cong (ys s') (ys s) (suc i) n (ys_later alu_sub i s),
        ),
        IsBcd-cons (t.regs r) i n (omega (arith, kept, first)) ih.1,
        ih.2,
      )
