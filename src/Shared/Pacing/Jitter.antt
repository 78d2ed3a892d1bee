-- ===== src/Shared/Pacing/Jitter.antt =====
-- Shared/Pacing.hpp, `BatchJitter`: the batches' targets with their random offsets, and what that
-- does to the rate over many batches.
use calc_u.Base.{
  ℕ, zero, suc, ◌+◌, ◌-◌, ◌*◌, ◌/◌, ◌≤◌, ◌<◌, ◌≡◌, refl, ap, some, List, [], ◌∷◌, arith, length,
  take, get_or,
}
use calc_u.Core.Stepper.{Stepper, after}
use calc_u.Shared.Freeze.{FreezeController}
use calc_u.Shared.Pacing.{Batch, Stop, none_yet, breakpoint, freeze, run_batches}
use calc_u.Shared.Pacing.Batches.{sum, IsPaced, AreFull, run_batches_lem}

pub record BatchJitter : Type 0 where
  pub target : ℕ
  pub last : ℕ

abbrev pub init : ℕ → BatchJitter
init target = record { target = target; last = 0 }

-- The next batch's cycles, for the offset that the generator draws from 0 to target / 2.
unfoldable pub next : ℕ → BatchJitter → ℕ × BatchJitter
next offset j = (j.target + offset - j.last, record j { last = offset })

unfoldable pub reset : BatchJitter → BatchJitter
reset j = record j { last = 0 }

-- The targets that a sequence of offsets gives, and the last offset.
unfoldable pub targets : List ℕ → BatchJitter → List ℕ
unfolding next
targets [] j = []
targets (o ∷ os) j = let (t, j') = next o j in t ∷ targets os j'

abbrev pub last_of : List ℕ → ℕ → ℕ
last_of [] d = d
last_of (o ∷ os) d = last_of os o

-- The offsets are in the generator's range.
abbrev pub AreDrawn : ℕ → List ℕ → Type 0
AreDrawn target [] = 0 ≤ target
AreDrawn target (o ∷ os) = (o ≤ target / 2) × AreDrawn target os

-- The offset of the last of `n` batches, or the one before them.
abbrev pub last_offset : List ℕ → ℕ → ℕ → ℕ
last_offset os n d = last_of (take n os) d

sum-take-targets :
    (os : List ℕ) (n : ℕ) (j : BatchJitter)
    → AreDrawn j.target os
    → j.last ≤ j.target / 2
    → n ≤ length (targets os j)
    → sum (take n (targets os j)) + j.last ≡ n * j.target + last_offset os n j.last
unfolding targets next
sum-take-targets os zero j h k l = omega arith
sum-take-targets [] (suc n) j h k l = absurd (omega (arith, l))
sum-take-targets (o ∷ os) (suc n) j (p, h) k l =
    let rest = sum-take-targets os n (record j { last = o }) h p (omega (arith, l)) in
    let t : j.target + o - j.last + j.last ≡ j.target + o = omega (arith, k) in
    grind (arith, rest, t)

last_offset-le :
    (os : List ℕ) (n target d : ℕ)
    → AreDrawn target os
    → d ≤ target / 2
    → last_offset os n d ≤ target / 2
last_offset-le os zero target d h k = k
last_offset-le [] (suc n) target d h k = k
last_offset-le (o ∷ os) (suc n) target d (p, h) k = last_offset-le os n target o h p

length-targets : (os : List ℕ) (j : BatchJitter) → length (targets os j) ≡ length os
unfolding targets next
length-targets [] j = refl
length-targets (o ∷ os) j = ap suc (length-targets os (record j { last = o }))

IsPaced-count {ℓ} :
    {M : Type ℓ} (s : Stepper M) (e : Stop) (k n all left total : ℕ) (m : M)
    → IsPaced s e k n all left 0 total m
    → n ≤ all
IsPaced-count s none_yet k n all left total m (h, _, _) = omega (arith, h)
IsPaced-count s breakpoint k n all left total m (h, _, _) = omega (arith, h)
IsPaced-count s (freeze o) k n all left total m (h, _) = omega (arith, h)

-- A run of batches whose targets are jittered by offsets up to half a target, from the grid point
-- and no carry, ends with some batch; its first `n` batches are full, and were to spend `n` targets
-- plus the last offset, which is at most half a target. If no batch is cut, `n` is the number of
-- offsets, and the cycles spent are that sum and a final carry below 4. If a freeze cuts batch
-- `n + 1`, they are that sum and the carry it leaves, which is below the target of that batch and
-- 4; if a breakpoint does, they are 1 to 4 more, the weight of the step that hits it.
pub run_batches-targets {ℓ} :
    {M : Type ℓ} (s : Stepper M) (os : List ℕ) (target : ℕ) (f : FreezeController) (m : M)
    → AreDrawn target os
    → let ts = targets os (init target) in
      (b : Batch M) × (k : ℕ) × (n : ℕ) × (run_batches s ts 0 f m ≡ some b)
      × (b.machine ≡ after s k m)
      × AreFull s n ts 0 f m b
      × (b.carry < get_or ts n 0 + 4)
      × IsPaced s b.stop k n (length os) b.carry 0 (n * target + last_offset os n 0) m
      × (last_offset os n 0 ≤ target / 2)
run_batches-targets s os target f m h =
    let ts = targets os (init target) in
    let (b, k, n, e, q, full, below, paced) = run_batches_lem s ts 0 f m (omega arith) in
    let within = IsPaced-count s b.stop k n (length ts) b.carry (sum (take n ts)) m paced in
    let total : sum (take n ts) ≡ n * target + last_offset os n 0 =
      omega (arith, sum-take-targets os n (init target) h (omega arith) within) in
    (
      b,
      k,
      n,
      e,
      q,
      full,
      below,
      rw (← total, ← length-targets os (init target)) paced,
      last_offset-le os n target 0 h (omega arith),
    )
