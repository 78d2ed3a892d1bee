-- ===== src/Shared/KeySequencer/Keyboard/Laws.antt =====
-- Deferred releases: exactly those that are due are carried out.
use calc_u.Base.{
  ℕ, zero, suc, ◌+◌, ◌≤◌, ◌<◌, ◌≡◌, refl, ◌∙◌, inl, inr, Bool, true, false, ◌&&◌, if◌then◌else◌,
  leb, ltb, ◌==◌, List, [], ◌∷◌, length, arith, Bool-cases, ltb→lt,
}
use calc_u.Shared.KeySequencer.{Host, release_key}
use calc_u.Shared.KeySequencer.Keyboard.{
  Sequencer, take_min, pair_ltb, release_from, release_loop, release_due,
}

-- How often a release stands in a list.
abbrev pub count : ℕ × ℕ → List (ℕ × ℕ) → ℕ
count z [] = 0
count z (x ∷ xs) = (if x.0 == z.0 && x.1 == z.1 then 1 else 0) + count z xs

abbrev pub AreFrom : ℕ → List (ℕ × ℕ) → Type 0
AreFrom t [] = t ≤ t
AreFrom t (x ∷ xs) = (t ≤ x.0) × AreFrom t xs

AreFrom-le : (s t : ℕ) (xs : List (ℕ × ℕ)) → s ≤ t → AreFrom t xs → AreFrom s xs
AreFrom-le s t [] l h = omega arith
AreFrom-le s t (x ∷ xs) l (p, h) = (omega (arith, l, p), AreFrom-le s t xs l h)

pair_ltb-le : (a b : ℕ × ℕ) → pair_ltb a b ≡ true → a.0 ≤ b.0
pair_ltb-le a b h = ground (arith, h)

not_pair_ltb-le : (a b : ℕ × ℕ) → pair_ltb a b ≡ false → b.0 ≤ a.0
not_pair_ltb-le a b h = ground (arith, h)

-- The least release of a list, and the rest.
abbrev IsMin : List (ℕ × ℕ) → (ℕ × ℕ) × List (ℕ × ℕ) → Type 0
IsMin xs (m, rest) =
    AreFrom m.0 xs
    × AreFrom m.0 rest
    × ((z : ℕ × ℕ) → count z xs ≡ count z (m ∷ rest))
    × (length rest + 1 ≡ length xs)

-- The least of a list, from the least of its tail.
abbrev min_of : Bool → ℕ × ℕ → ℕ × ℕ → List (ℕ × ℕ) → List (ℕ × ℕ) → (ℕ × ℕ) × List (ℕ × ℕ)
min_of b x m rest ys = if b then (m, x ∷ rest) else (x, ys)

min_of-IsMin :
    (b : Bool) (x : ℕ × ℕ) (ys : List (ℕ × ℕ)) (m : ℕ × ℕ) (rest : List (ℕ × ℕ))
    → pair_ltb m x ≡ b
    → IsMin ys (m, rest)
    → IsMin (x ∷ ys) (min_of b x m rest ys)
min_of-IsMin true x ys m rest t (a, b, c, d) =
    let l = pair_ltb-le m x t in ((l, a), (l, b), (λ z. omega (arith, c z)), omega (arith, d))
min_of-IsMin false x ys m rest f (a, b, c, d) =
    let all = AreFrom-le x.0 m.0 ys (not_pair_ltb-le m x f) a in
    ((omega arith, all), all, (λ z. refl), omega arith)

take_min_lem : (x : ℕ × ℕ) (xs : List (ℕ × ℕ)) → IsMin (x ∷ xs) (take_min x xs)
unfolding take_min
take_min_lem x [] = ((omega arith, omega arith), omega arith, (λ z. refl), omega arith)
take_min_lem x (y ∷ ys) =
    let (m, rest) = take_min y ys in
    min_of-IsMin (pair_ltb m x) x (y ∷ ys) m rest refl (take_min_lem y ys)

empty-count : (z : ℕ × ℕ) (xs : List (ℕ × ℕ)) → length xs ≤ 0 → count z xs ≡ 0
empty-count z [] h = refl
empty-count z (x ∷ xs) h = absurd (omega arith)

due-count :
    (now : ℕ) (z : ℕ × ℕ) (xs : List (ℕ × ℕ)) (t : ℕ)
    → now < t
    → AreFrom t xs
    → z.0 ≤ now
    → count z xs ≡ 0
due-count now z [] t l h k = refl
due-count now z (x ∷ xs) t l (p, h) k = ground (arith, due-count now z xs t l h k, p, l, k)

module _ {ℓ} {H : Type ℓ} (host : Host H) where
  -- After the releases: those to come are as they were, and none is left that is due.
  abbrev pub IsReleased : Sequencer H → Sequencer H → Type 0
  IsReleased s r =
      (r.now ≡ s.now)
      × ((z : ℕ × ℕ) → count z r.releases ≡ (if leb z.0 s.now then 0 else count z s.releases))

  later-IsReleased :
      (s : Sequencer H) (xs : List (ℕ × ℕ)) (t : ℕ)
      → s.now < t
      → AreFrom t xs
      → (z : ℕ × ℕ) → count z xs ≡ (if leb z.0 s.now then 0 else count z xs)
  later-IsReleased s xs t l h z = elim (Bool-cases (leb z.0 s.now)) [
    | inl b ↦ rw b (due-count s.now z xs t l h (ground (arith, b)))
    | inr b ↦ rw b refl
  ]

  -- One round, on the least release and the rest.
  abbrev round_on : (Sequencer H → Sequencer H) → Sequencer H → (ℕ × ℕ) × List (ℕ × ℕ) → Sequencer H
  round_on more s (m, rest) =
      if ltb s.now m.0
      then s
      else more (record s { host = host.act s.now (release_key m.1) s.host; releases = rest })

  round_on-IsReleased :
      (more : Sequencer H → Sequencer H) (s : Sequencer H) (p : (ℕ × ℕ) × List (ℕ × ℕ))
      → IsMin s.releases p
      → ((s' : Sequencer H) → length s'.releases + 1 ≡ length s.releases → IsReleased s' (more s'))
      → IsReleased s (round_on more s p)
  round_on-IsReleased more s (m, rest) (a, b, c, d) go = elim (Bool-cases (ltb s.now m.0)) [
    | inl t ↦ rw t (refl, later-IsReleased s s.releases m.0 (ltb→lt s.now m.0 t) a)
    | inr f ↦
        let (n, k) =
          go (record s { host = host.act s.now (release_key m.1) s.host; releases = rest }) d in
        rw f (n, λ z. k z ∙ ground (arith, c z, f))
  ]

  from-IsReleased :
      (more : Sequencer H → Sequencer H) (xs : List (ℕ × ℕ)) (s : Sequencer H)
      → s.releases ≡ xs
      → ((s' : Sequencer H) → length s'.releases + 1 ≡ length s.releases → IsReleased s' (more s'))
      → IsReleased s (release_from host more xs s)
  from-IsReleased more [] s e go = (refl, λ z. rw e (ground arith))
  from-IsReleased more (x ∷ xs) s e go =
      round_on-IsReleased more s (take_min x xs) (rw e (take_min_lem x xs)) go

  loop-IsReleased :
      (n : ℕ) (s : Sequencer H) → length s.releases ≤ n → IsReleased s (release_loop host n s)
  unfolding release_loop
  loop-IsReleased zero s l = (refl, λ z. rw (empty-count z s.releases l) (ground arith))
  loop-IsReleased (suc n) s l =
      from-IsReleased (release_loop host n) s.releases s refl
        (λ s' k. loop-IsReleased n s' (omega (arith, k)))

  -- Whatever releases are pending, and in whatever order, all that are due are taken off the list,
  -- and those that are not due stay, each as often as it was there.
  pub release_due-IsReleased : (s : Sequencer H) → IsReleased s (release_due host s)
  unfolding release_due
  release_due-IsReleased s = loop-IsReleased (length s.releases) s (omega arith)
