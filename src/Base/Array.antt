-- ===== src/Base/Array.antt =====
-- Fixed C arrays as functions from the index, and the few list functions over native numbers.
use Prim.Native.Nat.{ℕ, zero, suc, ◌+◌, ◌<◌}
use mathlib.Core.Option.{Option, none, some}
use mathlib.Core.Path.{◌≡◌, refl, ap, ◌∙◌}
use mathlib.Core.List.{List, [], ◌∷◌, ◌++◌}
use native.Mathlib.Omega.{arith}
use calc_u.Base.Tests.{◌==◌, ltb, leb, if◌then◌else◌}
use mathlib.Core.Bool.{◌&&◌}

-- `a[i] = v`
abbrev pub upd {ℓ} : {A : Type ℓ} → (ℕ → A) → ℕ → A → ℕ → A
upd f i v j = if j == i then v else f j

-- `memcpy(dst, src + off, n)`
abbrev pub copy {ℓ} : {A : Type ℓ} → (ℕ → A) → (ℕ → A) → ℕ → ℕ → ℕ → A
copy dst src off n j = if ltb j n then src (off + j) else dst j

-- The loop `for (i = lo; i <= hi && i < 16; i++) dst[i] = src[i]` over one register.
abbrev pub merge_range : (ℕ → ℕ) → (ℕ → ℕ) → ℕ → ℕ → ℕ → ℕ
merge_range dst src lo hi j = if leb lo j && leb j hi && ltb j 16 then src j else dst j

module _ {ℓ} {A : Type ℓ} where
  abbrev pub length : List A → ℕ
  length [] = 0
  length (x ∷ xs) = suc (length xs)

  abbrev pub get_or : List A → ℕ → A → A
  get_or [] i d = d
  get_or (x ∷ xs) zero d = x
  get_or (x ∷ xs) (suc i) d = get_or xs i d

  abbrev pub get_elem? : List A → ℕ → Option A
  get_elem? [] i = none
  get_elem? (x ∷ xs) zero = some x
  get_elem? (x ∷ xs) (suc i) = get_elem? xs i

  abbrev pub take : ℕ → List A → List A
  take zero xs = []
  take (suc n) [] = []
  take (suc n) (x ∷ xs) = x ∷ take n xs

  abbrev pub drop : ℕ → List A → List A
  drop zero xs = xs
  drop (suc n) [] = []
  drop (suc n) (x ∷ xs) = drop n xs

  -- The entries of `f` from `lo` on, `n` of them.
  abbrev pub slice : (ℕ → A) → ℕ → ℕ → List A
  slice f lo zero = []
  slice f lo (suc n) = f lo ∷ slice f (lo + 1) n

  pub length-slice : (f : ℕ → A) (lo n : ℕ) → length (slice f lo n) ≡ n
  length-slice f lo zero = refl
  length-slice f lo (suc n) = omega (arith, length-slice f (lo + 1) n)

  pub length-append : (xs ys : List A) → length (xs ++ ys) ≡ length xs + length ys
  length-append [] ys = omega arith
  length-append (x ∷ xs) ys = omega (arith, length-append xs ys)

pub slice_same {ℓ} :
    {A : Type ℓ} (f g : ℕ → A) (lo n : ℕ)
    → ((k : ℕ) → k < lo + n → f k ≡ g k)
    → slice f lo n ≡ slice g lo n
slice_same f g lo zero h = refl
slice_same f g lo (suc n) h =
    ap (λ x. x ∷ slice f (lo + 1) n) (h lo (omega arith))
    ∙ ap (λ l. g lo ∷ l) (slice_same f g (lo + 1) n (λ k l. h k (omega (arith, l))))

slice_tail {ℓ} :
    {A : Type ℓ} (d x : A) (xs : List A) (lo n : ℕ)
    → slice (λ k. get_or (x ∷ xs) k d) (lo + 1) n ≡ slice (λ k. get_or xs k d) lo n
slice_tail d x xs lo zero = refl
slice_tail d x xs lo (suc n) =
    let e : lo + 1 ≡ suc lo = omega arith in
    ap (λ a. a ∷ slice (λ k. get_or (x ∷ xs) k d) (lo + 1 + 1) n) (ap (λ k. get_or (x ∷ xs) k d) e)
    ∙ ap (λ l. get_or xs lo d ∷ l) (slice_tail d x xs (lo + 1) n)

-- The entries of a list in order are the list.
pub slice-get_or {ℓ} :
    {A : Type ℓ} (d : A) (xs : List A) → slice (λ k. get_or xs k d) 0 (length xs) ≡ xs
slice-get_or d [] = refl
slice-get_or d (x ∷ xs) = ap (λ l. x ∷ l) (slice_tail d x xs 0 (length xs) ∙ slice-get_or d xs)
