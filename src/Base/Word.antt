-- ===== src/Base/Word.antt =====
-- Machine words: the casts to 8, 16 and 32 bits, and the laws of single bits under `&`, `|`, `^`.
use Prim.Native.Nat.{ℕ, zero, suc, ◌+◌, ◌*◌, ◌/◌, ◌%◌, ◌^◌, ◌≤◌, min, max}
use Prim.Native.Nat.{digits, bitwise, bit_and, bit_or, bit_xor, differ}
use Prim.Native.Nat.{bit_and-bitwise, bit_or-bitwise, bit_xor-bitwise}
use mathlib.Core.Path.{◌≡◌, refl}
use mathlib.Core.Bool.{Bool, not}
use native.Mathlib.Nat.{le_refl}
use native.Mathlib.Omega.{arith}
use calc_u.Base.Tests.{◌==◌}

-- The casts `static_cast<uint8_t>` to `static_cast<uint32_t>`.
abbrev pub u8 : ℕ → ℕ
u8 x = x % 256

abbrev pub u16 : ℕ → ℕ
u16 x = x % 65536

abbrev pub u32 : ℕ → ℕ
u32 x = x % 4294967296

-- `x >> k`
abbrev pub shr : ℕ → ℕ → ℕ
shr x k = x / 2 ^ k

-- `x & mask` as a condition.
abbrev pub any_bit : ℕ → ℕ → Bool
any_bit x mask = not (bit_and x mask == 0)

-- `x & ~mask` on a 16-bit word.
abbrev pub clear16 : ℕ → ℕ → ℕ
clear16 x mask = bit_and x (bit_xor mask 0xFFFF)

-- `x & ~mask` on an 8-bit word.
abbrev pub clear8 : ℕ → ℕ → ℕ
clear8 x mask = bit_and x (bit_xor mask 0xFF)

-- Bit `k` of a word, by halving.
abbrev pub bit : ℕ → ℕ → ℕ
bit x zero = x % 2
bit x (suc k) = bit (x / 2) k

module _ (rest : ℕ → ℕ) (join : ℕ → ℕ → ℕ) where
  -- The digits do not depend on the fuel that is left over.
  digits_fuel :
      (x k l : ℕ) → x ≤ k → x ≤ l → (y : ℕ) → digits rest join k x y ≡ digits rest join l x y
  digits_fuel zero zero zero h i y = refl
  digits_fuel zero zero (suc l) h i y = refl
  digits_fuel zero (suc k) zero h i y = refl
  digits_fuel zero (suc k) (suc l) h i y = refl
  digits_fuel (suc x) zero l h i y = absurd (omega arith)
  digits_fuel (suc x) (suc k) zero h i y = absurd (omega arith)
  digits_fuel (suc x) (suc k) (suc l) h i y =
      let half = suc x / 2 in
      let same = digits_fuel half k l (omega arith) (omega arith) (y / 2) in rw same refl

  digits_halve :
      (x y : ℕ)
      → let half = suc x / 2 in
        bitwise rest join (suc x) y ≡ bitwise rest join half (y / 2) * 2 + join (suc x % 2) (y % 2)
  digits_halve x y =
      let half = suc x / 2 in
      omega (arith, digits_fuel half x half (omega arith) (le_refl half) (y / 2))

-- Each operation goes bit by bit: the halves, and the lowest bits.
pub bit_and-halves : (x y : ℕ) → bit_and x y ≡ bit_and (x / 2) (y / 2) * 2 + min (x % 2) (y % 2)
bit_and-halves zero y = simp bit_and-bitwise (omega arith)
bit_and-halves (suc x) y = simp bit_and-bitwise (digits_halve (λ m. 0) min x y)

pub bit_or-halves : (x y : ℕ) → bit_or x y ≡ bit_or (x / 2) (y / 2) * 2 + max (x % 2) (y % 2)
bit_or-halves zero y = simp bit_or-bitwise (omega arith)
bit_or-halves (suc x) y = simp bit_or-bitwise (digits_halve (λ m. m) max x y)

pub bit_xor-halves : (x y : ℕ) → bit_xor x y ≡ bit_xor (x / 2) (y / 2) * 2 + differ (x % 2) (y % 2)
bit_xor-halves zero y = simp bit_xor-bitwise (omega arith)
bit_xor-halves (suc x) y = simp bit_xor-bitwise (digits_halve (λ m. m) differ x y)
