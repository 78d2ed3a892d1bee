-- ===== src/Shared/StateFile/Program.antt =====
-- What a PARTITION line of a state file amounts to in the machine.
use calc_u.Base.{
  ℕ, zero, suc, ◌+◌, ◌-◌, ◌*◌, ◌/◌, ◌%◌, ◌≤◌, ◌<◌, ◌≡◌, inl, inr, leb, List, Option, none, some,
  map_some, ℤ, arith, Bool-cases,
}
use calc_u.Core.Machine.{Machine}
use calc_u.Core.Machine.Memory.{partition_program_regs}
use calc_u.Core.Machine.Memory.Laws.{partition-set}
use calc_u.Shared.TextUtil.{parse_dec}
use calc_u.Shared.TextUtil.Trim.{trim, before}
use calc_u.Shared.StateFile.Lines.{rounded, steps_of, parse_partition}
use calc_u.Shared.StateApplier.{set_partition}

-- What `rounded` gives of a number of steps.
abbrev IsRounded : ℕ → ℕ → Type 0
IsRounded steps r = (r % 80 ≡ 0) × (80 ≤ r) × (r ≤ 960) × (steps ≤ 960 → steps ≤ r)

rounded_lem :
    (n b steps : ℕ) → b % 80 ≡ 0 → 80 ≤ b → b + n * 80 ≡ 1040 → IsRounded steps (rounded n b steps)
unfolding rounded
rounded_lem zero b steps h k e = (omega arith, omega arith, omega arith, λ l. l)
rounded_lem (suc n) b steps h k e = elim (Bool-cases (leb steps b)) [
  | inl t ↦ rw t (h, k, omega (arith, e), λ l. ground (arith, t))
  | inr f ↦ rw f (rounded_lem n (b + 80) steps (omega (arith, h)) (omega arith) (omega (arith, e)))
]

set_partition-regs :
    (last : ℕ) (m : Machine)
    → last + 1 < 1280
    → partition_program_regs (set_partition last m).cpu ≡ (last + 1) / 8 / 10 * 10
unfolding set_partition
set_partition-regs last m h = partition-set ((last + 1) / 8) m.cpu (omega (arith, h))

-- The last step that a PARTITION line gives lies from 79 to 959, and a machine that is given that
-- partition reads it back exactly: its program registers hold eight steps each, up to that one.
pub parse_partition-set :
    (s : List ℕ) (last : ℕ) (m : Machine)
    → parse_partition s ≡ some last
    → (79 ≤ last)
      × (last ≤ 959)
      × (partition_program_regs (set_partition last m).cpu * 8 ≡ last + 1)
unfolding parse_partition
parse_partition-set s last m e = go (parse_dec (trim (before 46 s))) e
  where
    go :
        (o : Option ℤ)
        → map_some (λ n. rounded 12 80 (steps_of n) - 1) o ≡ some last
        → (79 ≤ last)
          × (last ≤ 959)
          × (partition_program_regs (set_partition last m).cpu * 8 ≡ last + 1)
    go none h = cc
    go (some n) h =
        let (a, b, c, _) =
          rounded_lem 12 80 (steps_of n) (omega arith) (omega arith) (omega arith) in
        let same : rounded 12 80 (steps_of n) - 1 ≡ last = ground (arith, h) in
        let fits : last + 1 < 1280 = omega (arith, same, b, c) in
        (
          omega (arith, same, b),
          omega (arith, same, c),
          omega (arith, same, a, b, set_partition-regs last m fits),
        )
