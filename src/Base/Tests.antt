-- ===== src/Base/Tests.antt =====
-- Boolean tests on the native numbers, and the conditional.
use Prim.Native.Nat.{ℕ, zero, suc, ◌<◌, ◌≤◌, compare, Ordering}
use mathlib.Core.Path.{◌≡◌, refl}
use mathlib.Core.Logic.{◌↔◌, ◌⊎◌, inl, inr}
use mathlib.Core.Bool.{Bool, true, false}
use mathlib.Core.Option.{Option, none, some}
use native.Mathlib.Omega.{arith}

abbrev pub ltb : ℕ → ℕ → Bool
ltb a b = elim (compare a b) [ Ordering.lt ↦ true | _ ↦ false ]

abbrev pub leb : ℕ → ℕ → Bool
leb a b = elim (compare a b) [ Ordering.gt ↦ false | _ ↦ true ]

infix 50 ◌==◌
abbrev pub ◌==◌ : ℕ → ℕ → Bool
a == b = elim (compare a b) [ Ordering.eq ↦ true | _ ↦ false ]

infix 1 if◌then◌else◌
abbrev pub if◌then◌else◌ {ℓ} : {A : Type ℓ} → Bool → A → A → A
if true then x else y = x
if false then x else y = y

pub ltb→lt : (a b : ℕ) → ltb a b ≡ true → a < b
ltb→lt a b h = ground arith

pub lt→ltb : (a b : ℕ) → a < b → ltb a b ≡ true
lt→ltb a b h = ground arith

pub ge→ltb : (a b : ℕ) → b ≤ a → ltb a b ≡ false
ge→ltb a b h = ground arith

pub ==_iff : (a b : ℕ) → ((a == b) ≡ true) ↔ (a ≡ b)
==_iff a b = ground arith

pub Bool-cases : (b : Bool) → (b ≡ true) ⊎ (b ≡ false)
Bool-cases true = inl refl
Bool-cases false = inr refl

pub Option-cases {ℓ} : {A : Type ℓ} (o : Option A) → (o ≡ none) ⊎ ((a : A) × (o ≡ some a))
Option-cases none = inl refl
Option-cases (some a) = inr (a, refl)

-- A case for each value of a four-bit field.
pub below16 {ℓ} :
    (P : ℕ → Type ℓ)
    → P 0
    → P 1
    → P 2
    → P 3
    → P 4
    → P 5
    → P 6
    → P 7
    → P 8
    → P 9
    → P 10
    → P 11
    → P 12
    → P 13
    → P 14
    → P 15
    → (n : ℕ) → n < 16
    → P n
below16 P h _ _ _ _ _ _ _ _ _ _ _ _ _ _ _ zero lt = h
below16 P _ h _ _ _ _ _ _ _ _ _ _ _ _ _ _ (suc zero) lt = h
below16 P _ _ h _ _ _ _ _ _ _ _ _ _ _ _ _ (suc (suc zero)) lt = h
below16 P _ _ _ h _ _ _ _ _ _ _ _ _ _ _ _ (suc (suc (suc zero))) lt = h
below16 P _ _ _ _ h _ _ _ _ _ _ _ _ _ _ _ (suc (suc (suc (suc zero)))) lt = h
below16 P _ _ _ _ _ h _ _ _ _ _ _ _ _ _ _ (suc (suc (suc (suc (suc zero))))) lt = h
below16 P _ _ _ _ _ _ h _ _ _ _ _ _ _ _ _ (suc (suc (suc (suc (suc (suc zero)))))) lt = h
below16 P _ _ _ _ _ _ _ h _ _ _ _ _ _ _ _ (suc (suc (suc (suc (suc (suc (suc zero))))))) lt = h
below16 P _ _ _ _ _ _ _ _ h _ _ _ _ _ _ _ (suc (suc (suc (suc (suc (suc (suc (suc zero)))))))) lt =
    h
below16 P _ _ _ _ _ _ _ _ _ h _ _ _ _ _ _ (suc (suc (suc (suc (suc (suc (suc (suc (suc zero)))))))))
      lt =
    h
below16 P _ _ _ _ _ _ _ _ _ _ h _ _ _ _ _
      (suc (suc (suc (suc (suc (suc (suc (suc (suc (suc zero)))))))))) lt =
    h
below16 P _ _ _ _ _ _ _ _ _ _ _ h _ _ _ _
      (suc (suc (suc (suc (suc (suc (suc (suc (suc (suc (suc zero))))))))))) lt =
    h
below16 P _ _ _ _ _ _ _ _ _ _ _ _ h _ _ _
      (suc (suc (suc (suc (suc (suc (suc (suc (suc (suc (suc (suc zero)))))))))))) lt =
    h
below16 P _ _ _ _ _ _ _ _ _ _ _ _ _ h _ _
      (suc (suc (suc (suc (suc (suc (suc (suc (suc (suc (suc (suc (suc zero))))))))))))) lt =
    h
below16 P _ _ _ _ _ _ _ _ _ _ _ _ _ _ h _
      (suc (suc (suc (suc (suc (suc (suc (suc (suc (suc (suc (suc (suc (suc zero)))))))))))))) lt =
    h
below16 P _ _ _ _ _ _ _ _ _ _ _ _ _ _ _ h
      (suc (suc (suc (suc (suc (suc (suc (suc (suc (suc (suc (suc (suc (suc (suc zero)))))))))))))))
      lt =
    h
below16 P _ _ _ _ _ _ _ _ _ _ _ _ _ _ _ _
      (suc
        (suc (suc (suc (suc (suc (suc (suc (suc (suc (suc (suc (suc (suc (suc (suc n))))))))))))))))
      lt =
    absurd (omega arith)
