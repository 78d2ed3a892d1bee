-- ===== src/Base/Bits.antt =====
-- Single bits of a word under `&`, `|`, `^`, `~` and the shifted one, at every position.
use native.Mathlib.Nat.{pow-suc, one-le-pow}
use Prim.Native.Nat.{
  ℕ, zero, suc, ◌-◌, ◌*◌, ◌/◌, ◌%◌, ◌^◌, ◌≤◌, ◌<◌, min, max, differ, bit_and, bit_or, bit_xor,
}
use mathlib.Core.Path.{◌≡◌, refl, ap, ◌∙◌}
use mathlib.Core.Logic.{inl, inr}
use mathlib.Core.Bool.{false, Bool, true, ◌&&◌, not}
use Prim.Native.Nat.{bit_and-bitwise}
use native.Mathlib.Omega.{arith}
use calc_u.Base.Tests.{◌==◌, ==_iff, if◌then◌else◌, leb, Bool-cases}
use calc_u.Base.Word.{bit, bit_and-halves, bit_or-halves, bit_xor-halves, any_bit, clear16}

half-and : (a b : ℕ) → bit_and a b / 2 ≡ bit_and (a / 2) (b / 2)
half-and a b = omega (arith, bit_and-halves a b)

half-or : (a b : ℕ) → bit_or a b / 2 ≡ bit_or (a / 2) (b / 2)
half-or a b = omega (arith, bit_or-halves a b)

differ_lt : (a b : ℕ) → a < 2 → b < 2 → differ a b < 2
differ_lt zero zero p q = omega arith
differ_lt zero (suc zero) p q = omega arith
differ_lt (suc zero) zero p q = omega arith
differ_lt (suc zero) (suc zero) p q = omega arith
differ_lt (suc (suc a)) b p q = absurd (omega arith)
differ_lt zero (suc (suc b)) p q = absurd (omega arith)
differ_lt (suc zero) (suc (suc b)) p q = absurd (omega arith)

differ-lt : (a b : ℕ) → differ (a % 2) (b % 2) < 2
differ-lt a b = ground (arith, differ_lt (a % 2) (b % 2))

half-xor : (a b : ℕ) → bit_xor a b / 2 ≡ bit_xor (a / 2) (b / 2)
half-xor a b = omega (arith, bit_xor-halves a b, differ-lt a b)

pub bit-lt : (x k : ℕ) → bit x k < 2
bit-lt x zero = omega arith
bit-lt x (suc k) = bit-lt (x / 2) k

pub bit-and : (a b k : ℕ) → bit (bit_and a b) k ≡ min (bit a k) (bit b k)
bit-and a b zero = omega (arith, bit_and-halves a b)
bit-and a b (suc k) = rw (half-and a b) (bit-and (a / 2) (b / 2) k)

pub bit-or : (a b k : ℕ) → bit (bit_or a b) k ≡ max (bit a k) (bit b k)
bit-or a b zero = omega (arith, bit_or-halves a b)
bit-or a b (suc k) = rw (half-or a b) (bit-or (a / 2) (b / 2) k)

pub bit-xor : (a b k : ℕ) → bit (bit_xor a b) k ≡ differ (bit a k) (bit b k)
bit-xor a b zero = omega (arith, bit_xor-halves a b, differ-lt a b)
bit-xor a b (suc k) = rw (half-xor a b) (bit-xor (a / 2) (b / 2) k)

bit-zero : (k : ℕ) → bit 0 k ≡ 0
bit-zero zero = refl
bit-zero (suc k) = bit-zero k

half-pow : (j : ℕ) → 2 ^ suc j / 2 ≡ 2 ^ j
half-pow j = omega (arith, pow-suc 2 j)

pub bit-pow : (j k : ℕ) → bit (2 ^ j) k ≡ (if k == j then 1 else 0)
bit-pow zero zero = refl
bit-pow zero (suc k) = rw (bit-zero k) (ground arith)
bit-pow (suc j) zero = ground (arith, pow-suc 2 j)
bit-pow (suc j) (suc k) = rw (half-pow j) (ground (arith, bit-pow j k))

and-zero : (n w : ℕ) → w ≤ n → bit_and w 0 ≡ 0
and-zero n zero h = refl
and-zero zero (suc w) h = absurd (omega arith)
and-zero (suc n) (suc w) h =
    omega (arith, bit_and-halves (suc w) 0, and-zero n (suc w / 2) (omega arith))

-- A test with a shifted one reads that bit.
pub and-pow : (w k : ℕ) → bit_and w (2 ^ k) ≡ bit w k * 2 ^ k
and-pow w zero = omega (arith, bit_and-halves w 1, and-zero (w / 2) (w / 2) (omega arith))
and-pow w (suc k) =
    let ih : bit_and (w / 2) (2 ^ k) ≡ bit (w / 2) k * 2 ^ k = and-pow (w / 2) k in
    omega (
      arith,
      bit_and-halves w (2 ^ suc k),
      pow-suc 2 k,
      ap (λ (t : ℕ). bit_and (w / 2) t) (half-pow k),
      ih,
      ap (λ (t : ℕ). bit (w / 2) k * t) (pow-suc 2 k),
    )

pub any_bit-pow : (w k : ℕ) → any_bit w (2 ^ k) ≡ (bit w k == 1)
any_bit-pow w k =
    rw (and-pow w k) (bit_test (bit w k) (2 ^ k) (bit-lt w k) (one-le-pow k 2 (omega arith)))
  where
    bit_test : (b p : ℕ) → b < 2 → 1 ≤ p → not (b * p == 0) ≡ (b == 1)
    bit_test zero p h q = ground arith
    bit_test (suc zero) p h q = ground arith
    bit_test (suc (suc b)) p h q = absurd (omega arith)

-- The test holds of every number below the bound.
unfoldable pub all_below : ℕ → (ℕ → Bool) → Bool
all_below zero test = true
all_below (suc bound) test = if test bound then all_below bound test else false

-- A value for every number below the bound, checked by evaluation.
pub table :
    (bound : ℕ) (test : ℕ → Bool)
    → all_below bound test ≡ true
    → (x : ℕ) → x < bound
    → test x ≡ true
unfolding all_below
table zero test all x below = absurd (omega arith)
table (suc bound) test all x below = elim (Bool-cases (x == bound)) [
  | inl e ↦ rw ((==_iff x bound).0 e) (ground (arith, all))
  | inr e ↦ table bound test (ground (arith, all)) x (ground (arith, e))
]

ones16 : all_below 16 (λ k. bit 0xFFFF k == 1) ≡ true
unfolding all_below
ones16 = refl

bit-ones16 : (k : ℕ) → k < 16 → bit 0xFFFF k ≡ 1
bit-ones16 k h = (==_iff _ 1).0 (table 16 _ ones16 k h)

-- `w & ~(1 << j)` clears bit `j` and no other.
pub bit-clear16 : (w j k : ℕ) → k < 16 → bit (clear16 w (2 ^ j)) k ≡ (if k == j then 0 else bit w k)
bit-clear16 w j k h = ground (
  arith,
  bit-and w (bit_xor (2 ^ j) 0xFFFF) k,
  bit-xor (2 ^ j) 0xFFFF k,
  bit-ones16 k h,
  bit-pow j k,
  bit-lt w k,
)

differ-zero : (x : ℕ) → x < 2 → differ x 0 ≡ x
differ-zero zero h = refl
differ-zero (suc zero) h = refl
differ-zero (suc (suc x)) h = absurd (omega arith)

differ-one : (x : ℕ) → x < 2 → differ x 1 ≡ (if x == 0 then 1 else 0)
differ-one zero h = refl
differ-one (suc zero) h = refl
differ-one (suc (suc x)) h = absurd (omega arith)

differ_test : (x y : ℕ) → x < 2 → y < 2 → (differ x y == 1) ≡ not (x == y)
differ_test zero zero p q = refl
differ_test zero (suc zero) p q = refl
differ_test (suc zero) zero p q = refl
differ_test (suc zero) (suc zero) p q = refl
differ_test (suc (suc x)) y p q = absurd (omega arith)
differ_test zero (suc (suc y)) p q = absurd (omega arith)
differ_test (suc zero) (suc (suc y)) p q = absurd (omega arith)

-- `w | (1 << j)` sets bit `j` and no other.
pub bit-set : (w j k : ℕ) → bit (bit_or w (2 ^ j)) k ≡ (if k == j then 1 else bit w k)
bit-set w j k = ground (arith, bit-or w (2 ^ j) k, bit-pow j k, bit-lt w k)

-- `w ^ (1 << j)` flips bit `j` and no other.
pub bit-flip :
    (w j k : ℕ)
    → bit (bit_xor w (2 ^ j)) k ≡ (if k == j then if bit w k == 0 then 1 else 0 else bit w k)
bit-flip w j k =
    rw (bit-xor w (2 ^ j) k, bit-pow j k)
      (elim (Bool-cases (k == j)) [
        | inl e ↦ rw e (differ-one (bit w k) (bit-lt w k))
        | inr e ↦ rw e (differ-zero (bit w k) (bit-lt w k))
      ])

-- `(a ^ b) & (1 << j)` tells whether the words differ at bit `j`.
pub any_bit-xor : (a b j : ℕ) → any_bit (bit_xor a b) (2 ^ j) ≡ not (bit a j == bit b j)
any_bit-xor a b j =
    any_bit-pow (bit_xor a b) j
    ∙ rw (bit-xor a b j) (differ_test (bit a j) (bit b j) (bit-lt a j) (bit-lt b j))

-- Bits above a small number are 0.
pub bit-above : (x k j : ℕ) → x < 2 ^ j → j ≤ k → bit x k ≡ 0
bit-above x zero zero h p = omega arith
bit-above x (suc k) zero h p = bit-above (x / 2) k zero (omega arith) (omega arith)
bit-above x zero (suc j) h p = absurd (omega arith)
bit-above x (suc k) (suc j) h p = bit-above (x / 2) k j (omega (arith, pow-suc 2 j)) (omega arith)

pub bit-mod16 : (x k : ℕ) → k < 4 → bit (x % 16) k ≡ bit x k
bit-mod16 x zero h = omega arith
bit-mod16 x (suc zero) h = omega arith
bit-mod16 x (suc (suc zero)) h = omega arith
bit-mod16 x (suc (suc (suc zero))) h = omega arith
bit-mod16 x (suc (suc (suc (suc k)))) h = absurd (omega arith)

pub bit-double : (x k : ℕ) → bit (x * 2) k ≡ (if k == 0 then 0 else bit x (k - 1))
bit-double x zero = omega arith
bit-double x (suc k) = let e : x * 2 / 2 ≡ x = omega arith in rw e (ground arith)

r5_field : all_below 16 (λ k. bit 0xFFE1 k == (if leb 1 k && leb k 4 then 0 else 1)) ≡ true
unfolding all_below
r5_field = refl

-- `w & ~0x001E` clears bits 1 to 4.
pub bit-clear_field :
    (w k : ℕ) → k < 16 → bit (clear16 w 0x001E) k ≡ (if leb 1 k && leb k 4 then 0 else bit w k)
bit-clear_field w k h =
    let e : bit 0xFFE1 k ≡ (if leb 1 k && leb k 4 then 0 else 1) =
      (==_iff _ _).0 (table 16 _ r5_field k h) in
    ground (arith, bit-and w 0xFFE1 k, e, bit-lt w k)

pub bit_or-lt : (j a b : ℕ) → a < 2 ^ j → b < 2 ^ j → bit_or a b < 2 ^ j
bit_or-lt zero zero zero p q = omega arith
bit_or-lt zero zero (suc b) p q = absurd (omega arith)
bit_or-lt zero (suc a) b p q = absurd (omega arith)
bit_or-lt (suc j) a b p q =
    let h : 2 ^ suc j ≡ 2 ^ j * 2 = omega (arith, pow-suc 2 j) in
    omega (arith, h, bit_or-halves a b, bit_or-lt j (a / 2) (b / 2) (omega arith) (omega arith))

pub bit_xor-lt : (j a b : ℕ) → a < 2 ^ j → b < 2 ^ j → bit_xor a b < 2 ^ j
bit_xor-lt zero zero zero p q = omega arith
bit_xor-lt zero zero (suc b) p q = absurd (omega arith)
bit_xor-lt zero (suc a) b p q = absurd (omega arith)
bit_xor-lt (suc j) a b p q =
    let h : 2 ^ suc j ≡ 2 ^ j * 2 = omega (arith, pow-suc 2 j) in
    omega (
      arith,
      h,
      bit_xor-halves a b,
      differ-lt a b,
      bit_xor-lt j (a / 2) (b / 2) (omega arith) (omega arith),
    )

pub bit_and-lt : (j a b : ℕ) → b < 2 ^ j → bit_and a b < 2 ^ j
bit_and-lt zero a zero q = omega (arith, and-zero a a (omega arith))
bit_and-lt zero a (suc b) q = absurd (omega arith)
bit_and-lt (suc j) a b q =
    let h : 2 ^ suc j ≡ 2 ^ j * 2 = omega (arith, pow-suc 2 j) in
    omega (arith, h, bit_and-halves a b, bit_and-lt j (a / 2) (b / 2) (omega arith))

pub bit_and-lt_left : (j a b : ℕ) → a < 2 ^ j → bit_and a b < 2 ^ j
bit_and-lt_left zero zero b q = omega (arith, bit_and-bitwise 0 b)
bit_and-lt_left zero (suc a) b q = absurd (omega arith)
bit_and-lt_left (suc j) a b q =
    let h : 2 ^ suc j ≡ 2 ^ j * 2 = omega (arith, pow-suc 2 j) in
    omega (arith, h, bit_and-halves a b, bit_and-lt_left j (a / 2) (b / 2) (omega arith))
