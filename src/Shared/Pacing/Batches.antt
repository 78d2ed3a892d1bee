-- ===== src/Shared/Pacing/Batches.antt =====
-- Shared/Pacing.cpp: batches one after another, with the overshoot carried on.
use calc_u.Base.{
  ℕ, suc, ◌+◌, ◌≤◌, ◌<◌, ◌≡◌, refl, ap, sym, ◌∙◌, inl, inr, false, some, List, [], ◌∷◌, arith,
  length, take, get_or,
}
use calc_u.Core.Stepper.{Stepper, after, spent, after_add, spent_add, spent_last}
use calc_u.Shared.Freeze.{FreezeController, FreezeOwner}
use calc_u.Shared.Pacing.{
  Batch, Stop, none_yet, breakpoint, freeze, run_batch, run_batches, followed, proceed,
}
use calc_u.Shared.Pacing.Laws.{IsAccounted, run_batch_lem}
use calc_u.Shared.Pacing.Within.{run_batch-below}

abbrev pub sum : List ℕ → ℕ
sum [] = 0
sum (x ∷ xs) = x + sum xs

module _ {ℓ} {M : Type ℓ} (s : Stepper M) where
  -- What the first `n` batches were to spend, of `all`: with `left` the final carry and `carry` the
  -- one at the start, how it relates to the cycles of the `k` steps made.
  abbrev pub IsPaced : Stop → ℕ → ℕ → ℕ → ℕ → ℕ → ℕ → M → Type 0
  IsPaced none_yet k n all left carry total m =
      (n ≡ all) × (left + total ≡ carry + spent s k m) × (left < 4)
  IsPaced breakpoint k n all left carry total m =
      (n < all) × (left + total < carry + spent s k m) × (carry + spent s k m ≤ left + total + 4)
  IsPaced (freeze o) k n all left carry total m = (n < all) × (left + total ≡ carry + spent s k m)

  IsPaced-suc :
      (e : Stop) (j k n all t left mid carry total : ℕ) (m : M)
      → mid + t ≡ carry + spent s j m
      → IsPaced e k n all left mid total (after s j m)
      → IsPaced e (j + k) (suc n) (suc all) left carry (t + total) m
  IsPaced-suc none_yet j k n all t left mid carry total m h (l, p, q) =
      (ap suc l, omega (arith, h, p, spent_add s j k m), q)
  IsPaced-suc breakpoint j k n all t left mid carry total m h (l, b, c) =
      let e = spent_add s j k m in
      (omega (arith, l), omega (arith, h, b, e), omega (arith, h, c, e))
  IsPaced-suc (freeze o) j k n all t left mid carry total m h (l, b) =
      (omega (arith, l), omega (arith, h, b, spent_add s j k m))

  run_batches-first :
      (t : ℕ) (ts : List ℕ) (carry : ℕ) (f : FreezeController) (m : M)
      → run_batches s (t ∷ ts) carry f m ≡ followed s (run_batches s ts) (run_batch s carry t f m)
  unfolding run_batches
  run_batches-first t ts carry f m = refl

  run_batches-on :
      (t : ℕ) (ts : List ℕ) (carry : ℕ) (f : FreezeController) (m : M) (b : Batch M)
      → run_batch s carry t f m ≡ some b
      → b.stop ≡ none_yet
      → run_batches s (t ∷ ts) carry f m ≡ run_batches s ts b.carry b.controller b.machine
  run_batches-on t ts carry f m b h k =
      run_batches-first t ts carry f m
      ∙ ap (followed s (run_batches s ts)) h
      ∙ ap (proceed s (run_batches s ts) b) k

  run_batches-breakpoint :
      (t : ℕ) (ts : List ℕ) (carry : ℕ) (f : FreezeController) (m : M) (b : Batch M)
      → run_batch s carry t f m ≡ some b
      → b.stop ≡ breakpoint
      → run_batches s (t ∷ ts) carry f m ≡ some b
  run_batches-breakpoint t ts carry f m b h k =
      run_batches-first t ts carry f m
      ∙ ap (followed s (run_batches s ts)) h
      ∙ ap (proceed s (run_batches s ts) b) k

  run_batches-freeze :
      (t : ℕ) (ts : List ℕ) (carry : ℕ) (f : FreezeController) (m : M) (b : Batch M)
      (o : FreezeOwner)
      → run_batch s carry t f m ≡ some b
      → b.stop ≡ freeze o
      → run_batches s (t ∷ ts) carry f m ≡ some b
  run_batches-freeze t ts carry f m b o h k =
      run_batches-first t ts carry f m
      ∙ ap (followed s (run_batches s ts)) h
      ∙ ap (proceed s (run_batches s ts) b) k

  -- The first `n` batches are full, and the run of one more ends with the batch `b`.
  abbrev pub AreFull : ℕ → List ℕ → ℕ → FreezeController → M → Batch M → Type ℓ
  AreFull n ts carry f m b =
      (d : Batch M) × (run_batches s (take n ts) carry f m ≡ some d)
      × (d.stop ≡ none_yet)
      × (run_batches s (take (suc n) ts) carry f m ≡ some b)

  AreFull-suc :
      (n t : ℕ) (ts : List ℕ) (carry : ℕ) (f : FreezeController) (m : M) (b b' : Batch M)
      → run_batch s carry t f m ≡ some b
      → b.stop ≡ none_yet
      → AreFull n ts b.carry b.controller b.machine b'
      → AreFull (suc n) (t ∷ ts) carry f m b'
  AreFull-suc n t ts carry f m b b' h p (d, e, q, l) = (
    d,
    run_batches-on t (take n ts) carry f m b h p ∙ e,
    q,
    run_batches-on t (take (suc n) ts) carry f m b h p ∙ l,
  )

  -- What is to be shown of a run over the targets `ts`.
  abbrev pub Paced : List ℕ → ℕ → FreezeController → M → Type ℓ
  Paced ts carry f m =
      (b : Batch M) × (k : ℕ) × (n : ℕ) × (run_batches s ts carry f m ≡ some b)
      × (b.machine ≡ after s k m)
      × AreFull n ts carry f m b
      × (b.carry < get_or ts n 0 + 4)
      × IsPaced b.stop k n (length ts) b.carry carry (sum (take n ts)) m

  abbrev no_batch : (carry : ℕ) (f : FreezeController) (m : M) → Batch M
  no_batch carry f m = record {
    machine = m;
    carry = carry;
    controller = f;
    stop = none_yet;
    polled_hardware = false;
  }

  run_batches-none :
      (carry : ℕ) (f : FreezeController) (m : M)
      → run_batches s [] carry f m ≡ some (no_batch carry f m)
  unfolding run_batches
  run_batches-none carry f m = refl

  one_batch :
      (e : Stop) (t : ℕ) (ts : List ℕ) (carry : ℕ) (f : FreezeController) (m : M) (b : Batch M)
      (k : ℕ)
      → carry < 4
      → ((carry : ℕ) (f : FreezeController) (m : M) → carry < 4 → Paced ts carry f m)
      → run_batch s carry t f m ≡ some b
      → b.stop ≡ e
      → b.machine ≡ after s k m
      → IsAccounted s e k b.carry carry t m
      → b.carry < t + 4
      → Paced (t ∷ ts) carry f m
  one_batch none_yet t ts carry f m b k small ih h p q (a, over) within =
      let still : b.carry < 4 = elim over [
        | inl l ↦ l
        | inr z ↦ omega (arith, a, small, ap (λ j. spent s j m) z)
      ] in
      let (b', k', n, h', q', full, below, paced) = ih b.carry b.controller b.machine still in
      (
        b',
        k + k',
        suc n,
        run_batches-on t ts carry f m b h p ∙ h',
        q' ∙ ap (λ n. after s k' n) q ∙ sym (after_add s k k' m),
        AreFull-suc n t ts carry f m b b' h p full,
        below,
        IsPaced-suc b'.stop k k' n (length ts) t b'.carry b.carry carry (sum (take n ts)) m a
            (rw (← q) paced),
      )
  one_batch breakpoint t ts carry f m b k small ih h p q (j, e, a) within = (
    b,
    k,
    0,
    run_batches-breakpoint t ts carry f m b h p,
    q,
    (
      no_batch carry f m,
      run_batches-none carry f m,
      refl,
      run_batches-breakpoint t [] carry f m b h p,
    ),
    within,
    rw (p, e) (omega arith, omega (arith, a, spent_last s j m), omega (arith, a, spent_last s j m)),
  )
  one_batch (freeze o) t ts carry f m b k small ih h p q a within = (
    b,
    k,
    0,
    run_batches-freeze t ts carry f m b o h p,
    q,
    (
      no_batch carry f m,
      run_batches-none carry f m,
      refl,
      run_batches-freeze t [] carry f m b o h p,
    ),
    within,
    rw p (omega arith, omega (arith, a)),
  )

  -- Batches always come to an end, and nothing is lost between them, from a carry below 4 on: over
  -- any number of full batches the cycles spent are the sum of the targets and the change of the
  -- carry, which stays below 4; where a freeze or a breakpoint cuts a batch, the same sum holds of
  -- the full batches before it, but for the weight of a step that hits a breakpoint.
  pub run_batches_lem :
      (ts : List ℕ) (carry : ℕ) (f : FreezeController) (m : M) → carry < 4 → Paced ts carry f m
  run_batches_lem [] carry f m small = (
    no_batch carry f m,
    0,
    0,
    run_batches-none carry f m,
    refl,
    (no_batch carry f m, run_batches-none carry f m, refl, run_batches-none carry f m),
    omega (arith, small),
    (refl, omega arith, small),
  )
  run_batches_lem (t ∷ ts) carry f m small =
      let (b, k, h, q, a) = run_batch_lem s carry t f m in
      one_batch b.stop t ts carry f m b k small (run_batches_lem ts) h refl q a
        (run_batch-below s carry t f m b h (omega (arith, small)))
