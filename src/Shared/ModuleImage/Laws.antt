-- ===== src/Shared/ModuleImage/Laws.antt =====
-- Each step of each program of a module is found as that step of that program.
use calc_u.Base.{
  ℕ, zero, suc, ◌+◌, ◌-◌, ◌≤◌, ◌<◌, ◌≡◌, ◌≢◌, refl, ap, ◌∙◌, inl, inr, true, false, ◌&&◌, ◌||◌, leb,
  ltb, ◌==◌, List, [], ◌∷◌, Option, none, some, length, get_elem?, get_or, ◌>>=◌, map_some, arith,
  Bool-cases,
}
use calc_u.Shared.ModuleImage.{bcd, boundaries, ranges_of, or_empty, parse, find_step, library_step}

-- Programs follow each other from `lo` on, none is empty, and none ends beyond `limit`.
abbrev pub IsChain : ℕ → ℕ → List (ℕ × ℕ) → Type 0
IsChain limit lo [] = lo ≤ lo
IsChain limit lo ((a, b) ∷ rs) = (a ≡ lo) × (a < b) × (b ≤ limit) × IsChain limit b rs

abbrev ChainOf : ℕ → ℕ → Option (List (ℕ × ℕ)) → Type 0
ChainOf limit lo none = lo ≤ lo
ChainOf limit lo (some rs) = IsChain limit lo rs

cons-ChainOf :
    (limit lo hi : ℕ) (o : Option (List (ℕ × ℕ)))
    → lo < hi
    → hi ≤ limit
    → ChainOf limit hi o
    → ChainOf limit lo (map_some (λ rs. (lo, hi) ∷ rs) o)
cons-ChainOf limit lo hi none l m h = omega arith
cons-ChainOf limit lo hi (some rs) l m h = (refl, l, m, h)

ranges_of-ChainOf : (limit lo : ℕ) (bs : List ℕ) → ChainOf limit lo (ranges_of limit (lo ∷ bs))
unfolding ranges_of
ranges_of-ChainOf limit lo [] = omega arith
ranges_of-ChainOf limit lo (hi ∷ bs) = elim (Bool-cases (ltb lo hi && leb hi limit)) [
  | inl t ↦ rw t (
      cons-ChainOf limit lo hi (ranges_of limit (hi ∷ bs)) (ground (arith, t)) (ground (arith, t))
        (ranges_of-ChainOf limit hi bs))
  | inr f ↦ rw f (omega arith)
]

or_empty-IsChain :
    (limit lo : ℕ) (o : Option (List (ℕ × ℕ))) → ChainOf limit lo o → IsChain limit lo (or_empty o)
or_empty-IsChain limit lo none h = h
or_empty-IsChain limit lo (some rs) h = h

table-IsChain :
    (limit : ℕ) (o : Option (List ℕ))
    → (lo : ℕ) × IsChain limit lo (or_empty (o >>= ranges_of limit))
unfolding ranges_of
table-IsChain limit none = (0, omega arith)
table-IsChain limit (some []) = (0, omega arith)
table-IsChain limit (some (lo ∷ bs)) =
    (lo, or_empty-IsChain limit lo (ranges_of limit (lo ∷ bs)) (ranges_of-ChainOf limit lo bs))

parse-IsChain : (raw : List ℕ) → (lo : ℕ) × IsChain (length raw) lo (parse raw).ranges
unfolding parse
parse-IsChain raw = elim (Bool-cases (leb (length raw) 2 || bcd (get_or raw 0 0) == 0)) [
  | inl t ↦ rw t (0, omega arith)
  | inr f ↦ rw f (table-IsChain (length raw) (boundaries (bcd (get_or raw 0 0) + 1) 1 raw))
]

abbrev start_or : Option (ℕ × ℕ) → ℕ
start_or none = 0
start_or (some p) = p.0

abbrev end_or : Option (ℕ × ℕ) → ℕ
end_or none = 0
end_or (some p) = p.1

-- The start of a program lies at or behind the start of the chain.
chain-le :
    (limit lo k a b : ℕ) (rs : List (ℕ × ℕ))
    → IsChain limit lo rs
    → get_elem? rs k ≡ some (a, b)
    → (lo ≤ a) × (b ≤ limit)
chain-le limit lo k a b [] h e = ground (arith, e)
chain-le limit lo zero a b ((x, y) ∷ rs) (p, q, r, h) e =
    (omega (arith, p, ap start_or e), omega (arith, r, ap end_or e))
chain-le limit lo (suc k) a b ((x, y) ∷ rs) (p, q, r, h) e =
    let (s, t) = chain-le limit y k a b rs h e in (omega (arith, p, q, s), t)

find_step-chain :
    (limit lo i k a b step : ℕ) (rs : List (ℕ × ℕ))
    → IsChain limit lo rs
    → get_elem? rs k ≡ some (a, b)
    → a + step < b
    → find_step (a + step) i rs ≡ some (record { program = i + k + 1; step = step; lo = a; hi = b })
unfolding find_step
find_step-chain limit lo i k a b step [] h e l = ground (arith, e)
find_step-chain limit lo i zero a b step ((x, y) ∷ rs) (p, q, r, h) e l =
    let ex : x ≡ a = ap start_or e in
    let ey : y ≡ b = ap end_or e in
    let one : leb a (a + step) ≡ true = ground arith in
    let two : ltb (a + step) b ≡ true = ground (arith, l) in
    let three : a + step - a ≡ step = omega arith in
    let four : i + 0 + 1 ≡ i + 1 = omega arith in rw (ex, ey, one, two, three, four) refl
find_step-chain limit lo i (suc k) a b step ((x, y) ∷ rs) (p, q, r, h) e l =
    let (s, _) = chain-le limit y k a b rs h e in
    let out : ltb (a + step) y ≡ false = ground (arith, s) in
    let test : (leb x (a + step) && ltb (a + step) y) ≡ false = ground (arith, out) in
    let same : i + 1 + k + 1 ≡ i + suc k + 1 = omega arith in
    rw test (find_step-chain limit y (i + 1) k a b step rs h e l)
    ∙ ap (λ n. some (record { program = n; step = step; lo = a; hi = b })) same

-- In a module image that was parsed, each step of each program is found at its address, as that
-- step of that program: programs do not overlap, and none is empty or beyond the image. The
-- address 0xFFFF stands for none.
pub library_step-parse :
    (raw : List ℕ) (k lo hi step : ℕ)
    → get_elem? (parse raw).ranges k ≡ some (lo, hi)
    → lo + step < hi
    → lo + step ≢ 0xFFFF
    → library_step (parse raw) (lo + step)
      ≡ some (record { program = k + 1; step = step; lo = lo; hi = hi })
unfolding library_step
library_step-parse raw k lo hi step e l n =
    let (start, chain) = parse-IsChain raw in
    let real : (lo + step == 0xFFFF) ≡ false = ground (arith, n) in
    let number : 0 + k + 1 ≡ k + 1 = omega arith in
    rw real (find_step-chain (length raw) start 0 k lo hi step (parse raw).ranges chain e l)
    ∙ ap (λ n. some (record { program = n; step = step; lo = lo; hi = hi })) number
