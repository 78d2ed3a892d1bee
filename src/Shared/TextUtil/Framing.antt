-- ===== src/Shared/TextUtil/Framing.antt =====
-- What `trim`, `stripInlineComment` and `splitLines` do to plain lines.
use mathlib.Core.Path.{subst}
use calc_u.Base.{
  ℕ, zero, suc, ◌-◌, ◌≤◌, ◌<◌, ◌≡◌, ◌≢◌, refl, ap, ◌∙◌, true, false, ◌||◌, if◌then◌else◌, ltb, ◌==◌,
  List, [], ◌∷◌, ◌++◌, length, get_or, take, arith,
}
use calc_u.Shared.TextUtil.Trim.{
  space_of, space_at, ends_space, space_before, trim_left, trim_right, trim, before,
  strip_inline_comment,
}

-- A printing ASCII character that begins no comment.
abbrev pub IsPlain : ℕ → Type 0
IsPlain c = (32 ≤ c) × (c < 127) × (c ≢ 35)

abbrev pub IsInk : ℕ → Type 0
IsInk c = (32 < c) × (c < 127)

abbrev pub ArePlain : List ℕ → Type 0
ArePlain [] = 0 ≤ 0
ArePlain (c ∷ cs) = IsPlain c × ArePlain cs

abbrev pub StartsInk : List ℕ → Type 0
StartsInk [] = 1 ≤ 0
StartsInk (c ∷ cs) = IsInk c

abbrev pub EndsInk : List ℕ → Type 0
EndsInk [] = 1 ≤ 0
EndsInk (c ∷ []) = IsInk c
EndsInk (c ∷ d ∷ cs) = EndsInk (d ∷ cs)

pub append-ArePlain : (xs ys : List ℕ) → ArePlain xs → ArePlain ys → ArePlain (xs ++ ys)
append-ArePlain [] ys h k = k
append-ArePlain (x ∷ xs) ys (p, h) k = (p, append-ArePlain xs ys h k)

pub append-EndsInk : (xs ys : List ℕ) → EndsInk ys → EndsInk (xs ++ ys)
append-EndsInk [] ys h = h
append-EndsInk (x ∷ []) [] h = absurd (omega arith)
append-EndsInk (x ∷ []) (y ∷ ys) h = h
append-EndsInk (x ∷ z ∷ xs) ys h = append-EndsInk (z ∷ xs) ys h

get_or-lt : (s : List ℕ) (i : ℕ) → ArePlain s → get_or s i 0 < 127
get_or-lt [] i h = omega arith
get_or-lt (c ∷ cs) zero ((_, p, _), h) = p
get_or-lt (c ∷ cs) (suc i) (_, h) = get_or-lt cs i h

space_of-ascii : (c d e : ℕ) → c < 127 → space_of c d e ≡ (if c == 32 || c == 9 then 1 else 0)
unfolding space_of
space_of-ascii c d e h = ground arith

space_at-ascii :
    (s : List ℕ) (i : ℕ)
    → ArePlain s
    → space_at s i ≡ (if get_or s i 0 == 32 || get_or s i 0 == 9 then 1 else 0)
unfolding space_at
space_at-ascii s i h = space_of-ascii _ _ _ (get_or-lt s i h)

space_at-ink : (s : List ℕ) (i : ℕ) → ArePlain s → IsInk (get_or s i 0) → space_at s i ≡ 0
space_at-ink s i h k = space_at-ascii s i h ∙ ground (arith, k)

space_at-le : (s : List ℕ) (i : ℕ) → ArePlain s → space_at s i ≤ 1
space_at-le s i h = ground (arith, space_at-ascii s i h)

ends_space-one : (s : List ℕ) (e : ℕ) → space_at s (e - 1) ≡ 0 → ends_space s e 1 ≡ false
ends_space-one s e h = ground (arith, h)

ends_space-long :
    (s : List ℕ) (e len : ℕ) → 1 < len → space_at s (e - len) ≤ 1 → ends_space s e len ≡ false
ends_space-long s e len h k = ground (arith, h, k)

space_before-ink :
    (s : List ℕ) (e : ℕ) → ArePlain s → IsInk (get_or s (e - 1) 0) → space_before s e ≡ 0
unfolding space_before
space_before-ink s e h k =
    let a = ends_space-one s e (space_at-ink s (e - 1) h k) in
    let b = ends_space-long s e 2 (omega arith) (space_at-le s (e - 2) h) in
    let c = ends_space-long s e 3 (omega arith) (space_at-le s (e - 3) h) in rw (a, b, c) refl

trim_left-stay : (f : ℕ) (s : List ℕ) (b e : ℕ) → space_at s b ≡ 0 → trim_left f s b e ≡ b
unfolding trim_left
trim_left-stay zero s b e h = refl
trim_left-stay (suc f) s b e h = ground (arith, h)

trim_right-stay : (f : ℕ) (s : List ℕ) (b e : ℕ) → space_before s e ≡ 0 → trim_right f s b e ≡ e
unfolding trim_right
trim_right-stay zero s b e h = refl
trim_right-stay (suc f) s b e h = ground (arith, h)

last_lem : (s : List ℕ) → EndsInk s → (k : ℕ) × (length s ≡ suc k) × IsInk (get_or s k 0)
last_lem [] h = absurd (omega arith)
last_lem (c ∷ []) h = (0, refl, h)
last_lem (c ∷ d ∷ cs) h = let (k, e, i) = last_lem (d ∷ cs) h in (suc k, ap suc e, i)

space_before-end : (s : List ℕ) → ArePlain s → EndsInk s → space_before s (length s) ≡ 0
space_before-end s h z =
    let (k, e, i) = last_lem s z in
    let same : k ≡ length s - 1 = omega (arith, e) in
    space_before-ink s (length s) h (subst (λ n. IsInk (get_or s n 0)) same i)

take_all {ℓ} : {A : Type ℓ} (s : List A) → take (length s) s ≡ s
take_all [] = refl
take_all (x ∷ xs) = ap (λ l. x ∷ l) (take_all xs)

-- A line that begins and ends with ink is trimmed to itself, also behind one space.
pub trim-framed : (s : List ℕ) → ArePlain s → StartsInk s → EndsInk s → trim s ≡ s
unfolding trim
trim-framed [] h a z = absurd (omega arith)
trim-framed (c ∷ cs) h a z =
    let s = c ∷ cs in
    let b = trim_left-stay (length s) s 0 (length s) (space_at-ink s 0 h a) in
    let e = trim_right-stay (length s) s 0 (length s) (space_before-end s h z) in
    rw (b, e) (ap (λ n. take n s) (let m : length s - 0 ≡ length s = omega arith in m) ∙ take_all s)

trim_left-space :
    (n : ℕ) (s : List ℕ) → ArePlain s → StartsInk s → trim_left (suc n) (32 ∷ s) 0 (suc n) ≡ 1
unfolding trim_left space_at space_of
trim_left-space n s h a =
    let t : ltb 0 (suc n) ≡ true = ground arith in
    rw t (trim_left-stay n (32 ∷ s) 1 (suc n) (next s h a))
  where
    next : (s : List ℕ) → ArePlain s → StartsInk s → space_at (32 ∷ s) 1 ≡ 0
    next [] h a = absurd (omega arith)
    next (c ∷ cs) h a =
        space_at-ink (32 ∷ c ∷ cs) 1 ((omega arith, omega arith, λ e. absurd (omega (arith, e))), h)
          a

pub trim-space : (s : List ℕ) → ArePlain s → StartsInk s → EndsInk s → trim (32 ∷ s) ≡ s
unfolding trim
trim-space [] h a z = absurd (omega arith)
trim-space (c ∷ cs) h a z =
    let s = c ∷ cs in
    let t = 32 ∷ s in
    let p : ArePlain t = ((omega arith, omega arith, λ e. absurd (omega (arith, e))), h) in
    let e = trim_right-stay (length t) t 1 (length t) (space_before-end t p z) in
    let m : length t - 1 ≡ length s = omega arith in
    rw (trim_left-space (length s) s h a, e) (ap (λ n. take n s) m ∙ take_all s)

before-ArePlain : (s : List ℕ) → ArePlain s → before 35 s ≡ s
unfolding before
before-ArePlain [] h = refl
before-ArePlain (c ∷ cs) ((_, _, n), h) =
    let other : (c == 35) ≡ false = ground (arith, n) in
    rw other (ap (λ l. c ∷ l) (before-ArePlain cs h))

-- Such a line has no comment either.
pub strip_inline_comment-framed :
    (s : List ℕ) → ArePlain s → StartsInk s → EndsInk s → strip_inline_comment s ≡ s
unfolding strip_inline_comment
strip_inline_comment-framed s h a z = ap trim (before-ArePlain s h) ∙ trim-framed s h a z
