-- ===== src/Core/Cpu/FlagOps/Laws.antt =====
-- What the flag opcodes do to each bit of fA, fB and KR, and to COND.
use calc_u.Base.{
  ℕ, ◌-◌, ◌*◌, ◌%◌, ◌^◌, ◌<◌, ◌≡◌, refl, inl, inr, Bool, false, not, ◌&&◌, ◌||◌, if◌then◌else◌,
  ◌==◌, leb, arith, bit, bit_or, bit_xor, any_bit, clear16, bit-set, bit-flip, bit-clear16,
  any_bit-xor, any_bit-pow, bit-clear_field, bit-double, bit-mod16, bit-above, bit-or, bit-lt,
  Bool-cases, ==_iff, below16,
}
use calc_u.Core.Cpu.State.{Cpu}
use calc_u.Core.Cpu.FlagOps.{flag_bit, insert_r5, exec_flag}

-- Bit `k` of a flag register after operation `op` on bit `b`: 1 sets, 2 clears, 3 flips, 4 and 6
-- take the other register's bit, 7 puts R5 into bits 1 to 4.
abbrev pub bit_after : ℕ → ℕ → ℕ → (own other r5 : ℕ → ℕ) → ℕ
bit_after op b k own other r5 =
    if op == 7
    then if leb 1 k && leb k 4 then r5 (k - 1) else own k
    else if not (k == b)
    then own k
    else if op == 1
    then 1
    else if op == 2
    then 0
    else if op == 3
    then if own k == 0 then 1 else 0
    else if op == 4 || op == 6
    then other k
    else own k

bit-insert_r5 :
    (w r5 k : ℕ)
    → k < 16
    → bit (insert_r5 w r5) k ≡ (if leb 1 k && leb k 4 then bit r5 (k - 1) else bit w k)
bit-insert_r5 w r5 k h =
    rw (bit-or (clear16 w 0x001E) (r5 % 16 * 2) k, bit-clear_field w k h, bit-double (r5 % 16) k)
      (elim (Bool-cases (leb 1 k && leb k 4)) [
        | inl e ↦ rw e (ground (arith, bit-mod16 r5 (k - 1)))
        | inr e ↦ rw e (ground (arith, bit-above (r5 % 16) (k - 1) 4))
      ])

-- Flipping where two words differ copies the other word's bit.
bit-copy :
    (a b j k : ℕ)
    → bit (if any_bit (bit_xor a b) (2 ^ j) then bit_xor a (2 ^ j) else a) k
      ≡ (if k == j then bit b k else bit a k)
bit-copy a b j k = rw (any_bit-xor a b j) (elim (Bool-cases (k == j)) [
  | inl e ↦ rw (← (==_iff k j).0 e) (ground (arith, bit-flip a k k, bit-lt a k, bit-lt b k))
  | inr e ↦ rw e (ground (arith, bit-flip a j k))
])

bit-copy_back :
    (a b j k : ℕ)
    → bit (if any_bit (bit_xor a b) (2 ^ j) then bit_xor b (2 ^ j) else b) k
      ≡ (if k == j then bit a k else bit b k)
bit-copy_back a b j k = rw (any_bit-xor a b j) (elim (Bool-cases (k == j)) [
  | inl e ↦ rw (← (==_iff k j).0 e) (ground (arith, bit-flip b k k, bit-lt a k, bit-lt b k))
  | inr e ↦ rw e (ground (arith, bit-flip b j k))
])

-- The operation on fB that an opcode's low nibble stands for, as one on fA.
abbrev pub fb_op : ℕ → ℕ
fb_op sub =
    if sub == 4
    then 4
    else if leb 9 sub && leb sub 11
    then sub - 8
    else if leb 14 sub
    then sub - 8
    else 0

exec_flag-fa :
    (opcode : ℕ) (c : Cpu) (k : ℕ)
    → k < 16
    → bit (exec_flag opcode c).fa k
      ≡ bit_after (opcode % 16) (flag_bit opcode) k (bit c.fa) (bit c.fb) (bit c.r5)
unfolding exec_flag
exec_flag-fa opcode c k h =
    below16
      (λ n.
        opcode % 16 ≡ n
        → bit (exec_flag opcode c).fa k
          ≡ bit_after (opcode % 16) (flag_bit opcode) k (bit c.fa) (bit c.fb) (bit c.r5))
      (λ e. rw e (ground arith)) (λ e. rw e (set)) (λ e. rw e (clear)) (λ e. rw e (flip))
      (λ e. rw e (ground (arith, bit-copy c.fa c.fb (flag_bit opcode) k)))
      (λ e. rw e (ground arith))
      (λ e. rw e (ground (arith, bit-copy c.fa c.fb (flag_bit opcode) k)))
      (λ e. rw e (bit-insert_r5 c.fa c.r5 k h)) (λ e. rw e (ground arith))
      (λ e. rw e (ground arith)) (λ e. rw e (ground arith)) (λ e. rw e (ground arith))
      (λ e. rw e (ground arith)) (λ e. rw e (ground arith)) (λ e. rw e (ground arith))
      (λ e. rw e (ground arith)) (opcode % 16) (omega arith) refl
  where
    b : ℕ
    b = flag_bit opcode

    set : bit (bit_or c.fa (2 ^ b)) k ≡ (if not (k == b) then bit c.fa k else 1)
    set = ground (arith, bit-set c.fa b k)

    clear : bit (clear16 c.fa (2 ^ b)) k ≡ (if not (k == b) then bit c.fa k else 0)
    clear = ground (arith, bit-clear16 c.fa b k h)

    flip :
        bit (bit_xor c.fa (2 ^ b)) k
        ≡ (if not (k == b) then bit c.fa k else if bit c.fa k == 0 then 1 else 0)
    flip = ground (arith, bit-flip c.fa b k)

exec_flag-fb :
    (opcode : ℕ) (c : Cpu) (k : ℕ)
    → k < 16
    → bit (exec_flag opcode c).fb k
      ≡ bit_after (fb_op (opcode % 16)) (flag_bit opcode) k (bit c.fb) (bit c.fa) (bit c.r5)
unfolding exec_flag
exec_flag-fb opcode c k h =
    below16
      (λ n.
        opcode % 16 ≡ n
        → bit (exec_flag opcode c).fb k
          ≡ bit_after (fb_op (opcode % 16)) (flag_bit opcode) k (bit c.fb) (bit c.fa) (bit c.r5))
      (λ e. rw e (ground arith)) (λ e. rw e (ground arith)) (λ e. rw e (ground arith))
      (λ e. rw e (ground arith))
      (λ e. rw e (ground (arith, bit-copy_back c.fa c.fb (flag_bit opcode) k)))
      (λ e. rw e (ground arith)) (λ e. rw e (ground arith)) (λ e. rw e (ground arith))
      (λ e. rw e (ground arith)) (λ e. rw e (set)) (λ e. rw e (clear)) (λ e. rw e (flip))
      (λ e. rw e (ground arith)) (λ e. rw e (ground arith))
      (λ e. rw e (ground (arith, bit-copy_back c.fa c.fb (flag_bit opcode) k)))
      (λ e. rw e (bit-insert_r5 c.fb c.r5 k h)) (opcode % 16) (omega arith) refl
  where
    b : ℕ
    b = flag_bit opcode

    set : bit (bit_or c.fb (2 ^ b)) k ≡ (if not (k == b) then bit c.fb k else 1)
    set = ground (arith, bit-set c.fb b k)

    clear : bit (clear16 c.fb (2 ^ b)) k ≡ (if not (k == b) then bit c.fb k else 0)
    clear = ground (arith, bit-clear16 c.fb b k h)

    flip :
        bit (bit_xor c.fb (2 ^ b)) k
        ≡ (if not (k == b) then bit c.fb k else if bit c.fb k == 0 then 1 else 0)
    flip = ground (arith, bit-flip c.fb b k)

-- Bit `k` of KR: operation 5 sets, 13 clears.
abbrev pub kr_after : ℕ → ℕ → ℕ → ℕ → ℕ
kr_after sub b k own =
    if not (k == b) then own else if sub == 5 then 1 else if sub == 13 then 0 else own

exec_flag-kr :
    (opcode : ℕ) (c : Cpu) (k : ℕ)
    → k < 16
    → bit (exec_flag opcode c).kr k ≡ kr_after (opcode % 16) (flag_bit opcode) k (bit c.kr k)
unfolding exec_flag
exec_flag-kr opcode c k h =
    below16
      (λ n.
        opcode % 16 ≡ n
        → bit (exec_flag opcode c).kr k ≡ kr_after (opcode % 16) (flag_bit opcode) k (bit c.kr k))
      (λ e. rw e (ground arith)) (λ e. rw e (ground arith)) (λ e. rw e (ground arith))
      (λ e. rw e (ground arith)) (λ e. rw e (ground arith)) (λ e. rw e (set))
      (λ e. rw e (ground arith)) (λ e. rw e (ground arith)) (λ e. rw e (ground arith))
      (λ e. rw e (ground arith)) (λ e. rw e (ground arith)) (λ e. rw e (ground arith))
      (λ e. rw e (ground arith)) (λ e. rw e (clear)) (λ e. rw e (ground arith))
      (λ e. rw e (ground arith)) (opcode % 16) (omega arith) refl
  where
    b : ℕ
    b = flag_bit opcode

    set : bit (bit_or c.kr (2 ^ b)) k ≡ (if not (k == b) then bit c.kr k else 1)
    set = ground (arith, bit-set c.kr b k)

    clear : bit (clear16 c.kr (2 ^ b)) k ≡ (if not (k == b) then bit c.kr k else 0)
    clear = ground (arith, bit-clear16 c.kr b k h)

-- COND falls if the tested bit is set, or the compared bits agree.
abbrev pub cond_falls : ℕ → ℕ → ℕ → Bool
cond_falls sub a b =
    if sub == 0 then a == 1 else if sub == 8 then b == 1 else if sub == 12 then a == b else false

exec_flag-cond :
    (opcode : ℕ) (c : Cpu)
    → (exec_flag opcode c).flags.cond ≡ (
        if cond_falls (opcode % 16) (bit c.fa (flag_bit opcode)) (bit c.fb (flag_bit opcode))
        then false
        else c.flags.cond)
unfolding exec_flag
exec_flag-cond opcode c =
    below16
      (λ n.
        opcode % 16 ≡ n
        → (exec_flag opcode c).flags.cond ≡ (
            if cond_falls (opcode % 16) (bit c.fa (flag_bit opcode)) (bit c.fb (flag_bit opcode))
            then false
            else c.flags.cond))
      (λ e. rw e (rw (any_bit-pow c.fa (flag_bit opcode)) refl)) (λ e. rw e (ground arith))
      (λ e. rw e (ground arith)) (λ e. rw e (ground arith)) (λ e. rw e (ground arith))
      (λ e. rw e (ground arith)) (λ e. rw e (ground arith)) (λ e. rw e (ground arith))
      (λ e. rw e (rw (any_bit-pow c.fb (flag_bit opcode)) refl)) (λ e. rw e (ground arith))
      (λ e. rw e (ground arith)) (λ e. rw e (ground arith))
      (λ e. rw e (rw (any_bit-xor c.fa c.fb (flag_bit opcode)) (ground arith)))
      (λ e. rw e (ground arith)) (λ e. rw e (ground arith)) (λ e. rw e (ground arith)) (opcode % 16)
      (omega arith) refl

-- The flag opcodes bit by bit: what each makes of every bit of fA, fB and KR, and of COND.
pub exec_flag_lem :
    (opcode : ℕ) (c : Cpu) (k : ℕ)
    → k < 16
    → let d = exec_flag opcode c in
      let b = flag_bit opcode in
      let sub = opcode % 16 in
      (bit d.fa k ≡ bit_after sub b k (bit c.fa) (bit c.fb) (bit c.r5))
      × (bit d.fb k ≡ bit_after (fb_op sub) b k (bit c.fb) (bit c.fa) (bit c.r5))
      × (bit d.kr k ≡ kr_after sub b k (bit c.kr k))
      × (d.flags.cond ≡ (if cond_falls sub (bit c.fa b) (bit c.fb b) then false else c.flags.cond))
exec_flag_lem opcode c k h = (
  exec_flag-fa opcode c k h,
  exec_flag-fb opcode c k h,
  exec_flag-kr opcode c k h,
  exec_flag-cond opcode c,
)
