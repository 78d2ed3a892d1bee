-- ===== src/Shared/Pacing/Laws.antt =====
-- A batch always ends, and its cycles are accounted for.
use calc_u.Base.{
  ℕ, zero, suc, ◌+◌, ◌-◌, ◌≤◌, ◌<◌, ◌≡◌, refl, ap, ◌∙◌, ◌⊎◌, inl, inr, Bool, false, ◌||◌, Option,
  none, some, if◌then◌else◌, ltb, arith, Bool-cases, Option-cases, lt→ltb, ltb→lt, ge→ltb,
}
use calc_u.Core.Stepper.{Stepper, next, weight_of, after, spent}
use calc_u.Shared.Freeze.{FreezeController, check_step}
use calc_u.Shared.Pacing.{Batch, Stop, none_yet, breakpoint, freeze, batch_loop, run_batch}

module _ {ℓ} {M : Type ℓ} (s : Stepper M) where
  -- The carry after `k` steps from `carry`: a full batch takes its target off and is less than a
  -- step above it; a breakpoint leaves the last step's weight out; a freeze counts every step.
  abbrev pub IsAccounted : Stop → ℕ → ℕ → ℕ → ℕ → M → Type 0
  IsAccounted none_yet k left carry target m =
      (left + target ≡ carry + spent s k m) × ((left < 4) ⊎ (k ≡ 0))
  IsAccounted breakpoint k left carry target m =
      (j : ℕ) × (k ≡ suc j) × (left ≡ carry + spent s j m)
  IsAccounted (freeze o) k left carry target m = left ≡ carry + spent s k m

  IsAccounted-suc :
      (e : Stop) (k left carry target : ℕ) (m : M)
      → carry < target
      → IsAccounted e k left (carry + weight_of s m) target (next s m)
      → IsAccounted e (suc k) left carry target m
  IsAccounted-suc none_yet k left carry target m h (a, inl l) = (omega (arith, a), inl l)
  IsAccounted-suc none_yet k left carry target m h (a, inr z) =
      let w = s.weight_lem m in
      (omega (arith, a), inl (omega (arith, a, ap (λ j. spent s j (next s m)) z, w.0, w.1, h)))
  IsAccounted-suc breakpoint k left carry target m h (j, e, l) = (suc j, ap suc e, omega (arith, l))
  IsAccounted-suc (freeze o) k left carry target m h a = omega (arith, a)

  abbrev full_batch : Bool → ℕ → ℕ → FreezeController → M → Batch M
  full_batch polled carry target f m = record {
    machine = m;
    carry = carry - target;
    controller = f;
    stop = none_yet;
    polled_hardware = polled;
  }

  batch_loop_full :
      (fuel : ℕ) (polled : Bool) (carry target : ℕ) (f : FreezeController) (m : M)
      → target ≤ carry
      → batch_loop s fuel polled carry target f m ≡ some (full_batch polled carry target f m)
  unfolding batch_loop
  batch_loop_full zero polled carry target f m h = rw (ge→ltb carry target h) refl
  batch_loop_full (suc n) polled carry target f m h = rw (ge→ltb carry target h) refl

  -- One round below the target.
  batch_loop_more :
      (n : ℕ) (polled : Bool) (carry target : ℕ) (f : FreezeController) (m : M)
      → carry < target
      → let r = (s.step m).0 in
        let m' = (s.step m).1 in
        let checked = check_step (s.pc m') r.at_boundary f in
        batch_loop s (suc n) polled carry target f m ≡ (
          if r.breakpoint_hit
          then some (record {
            machine = m';
            carry = carry;
            controller = f;
            stop = breakpoint;
            polled_hardware = polled;
          })
          else elim checked.0 [
            | none ↦
                batch_loop s n (polled || r.polled_hardware) (carry + r.weight) target checked.1 m'
            | some owner ↦ some (record {
              machine = m';
              carry = carry + r.weight;
              controller = checked.1;
              stop = freeze owner;
              polled_hardware = polled || r.polled_hardware;
            })
          ])
  unfolding batch_loop
  batch_loop_more n polled carry target f m h = rw (lt→ltb carry target h) refl

  -- What a run of the loop amounts to.
  abbrev pub Ran : Option (Batch M) → ℕ → ℕ → M → Type ℓ
  Ran result carry target m =
      (b : Batch M) × (k : ℕ) × (result ≡ some b)
      × (b.machine ≡ after s k m)
      × IsAccounted b.stop k b.carry carry target m

  batch_loop_lem :
      (fuel : ℕ) (polled : Bool) (carry target : ℕ) (f : FreezeController) (m : M)
      → target ≤ carry + fuel
      → Ran (batch_loop s fuel polled carry target f m) carry target m
  batch_loop_lem zero polled carry target f m h = (
    full_batch polled carry target f m,
    0,
    batch_loop_full 0 polled carry target f m (omega arith),
    refl,
    (omega arith, inr refl),
  )
  batch_loop_lem (suc n) polled carry target f m h = elim (Bool-cases (ltb carry target)) [
    | inr over ↦ (
      full_batch polled carry target f m,
      0,
      batch_loop_full (suc n) polled carry target f m (ground (arith, over)),
      refl,
      (ground (arith, over), inr refl),
    )
    | inl t ↦
        let lt = ltb→lt carry target t in
        let more = batch_loop_more n polled carry target f m lt in
        let r = (s.step m).0 in
        let m' = (s.step m).1 in
        let checked = check_step (s.pc m') r.at_boundary f in
        elim (Bool-cases r.breakpoint_hit) [
          | inl hit ↦ (
            record {
              machine = m';
              carry = carry;
              controller = f;
              stop = breakpoint;
              polled_hardware = polled;
            },
            1,
            more ∙ rw hit refl,
            refl,
            (0, refl, omega arith),
          )
          | inr on ↦ elim (Option-cases checked.0) [
            | inl quiet ↦
                let (b, k, e, last, counted) =
                  batch_loop_lem n (polled || r.polled_hardware) (carry + r.weight) target checked.1
                    m' (omega (arith, (s.weight_lem m).0)) in
                (
                  b,
                  suc k,
                  more ∙ rw (on, quiet) e,
                  last,
                  IsAccounted-suc b.stop k b.carry carry target m lt counted,
                )
            | inr (owner, fired) ↦ (
              record {
                machine = m';
                carry = carry + r.weight;
                controller = checked.1;
                stop = freeze owner;
                polled_hardware = polled || r.polled_hardware;
              },
              1,
              more ∙ rw (on, fired) refl,
              refl,
              omega arith,
            )
          ]
        ]
  ]

  -- A batch ends whatever the machine does, and the carry that it leaves accounts for the cycles
  -- of the steps that it made: a full batch takes off its target and is less than one step over
  -- it, unless the carry covered the target; a freeze counts every step; a breakpoint leaves out
  -- the weight of the step that hit it.
  pub run_batch_lem :
      (carry target : ℕ) (f : FreezeController) (m : M)
      → Ran (run_batch s carry target f m) carry target m
  unfolding run_batch
  run_batch_lem carry target f m = batch_loop_lem target false carry target f m (omega arith)
