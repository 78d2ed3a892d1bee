-- ===== src/Shared/Pacing.antt =====
-- Shared/Pacing.cpp and Shared/Pacing.hpp: batches of weighted cycles, with the overshoot carried
-- into the next batch. The cycle counts are far below 2^31 there and are natural numbers here; the
-- random offsets of the jitter are an argument. `run_batch` runs on fuel.
pub mod Laws
pub mod Within
pub mod Batches
pub mod Jitter
use calc_u.Base.{
  ℕ, zero, suc, ◌+◌, ◌-◌, ◌*◌, ◌/◌, Bool, true, false, not, ◌||◌, Option, none, some, if◌then◌else◌,
  ltb, List, [], ◌∷◌, ℤ,
}
use calc_u.Core.Stepper.{Stepper, Outcome}
use calc_u.Shared.Model.{Model, ModelInfo, PcRange, contains, info, resonator_hz, to_variant}
use calc_u.Shared.Freeze.{FreezeController, FreezeOwner, check_step}

-- `BatchResult::Stop`, with the owner of a freeze.
pub data Stop : Type 0 where
  none_yet : Stop
  breakpoint : Stop
  freeze : FreezeOwner → Stop

pub record Batch {ℓ} (M : Type ℓ) : Type ℓ where
  pub machine : M
  pub carry : ℕ
  pub controller : FreezeController
  pub stop : Stop
  pub polled_hardware : Bool

-- `instructionHz × 20 ms`, rounded down.
unfoldable pub batch_target_cycles : Model → ℕ
unfolding resonator_hz to_variant
batch_target_cycles model = resonator_hz (to_variant model) * 20 / 32000

module _ {ℓ} {M : Type ℓ} (s : Stepper M) where
  -- The loop, from what was polled so far; `none` is the end of the fuel.
  unfoldable pub batch_loop : ℕ → Bool → ℕ → ℕ → FreezeController → M → Option (Batch M)
  unfolding check_step
  batch_loop zero polled carry target f m =
      if ltb carry target
      then none
      else some (record {
        machine = m;
        carry = carry - target;
        controller = f;
        stop = none_yet;
        polled_hardware = polled;
      })
  batch_loop (suc n) polled carry target f m =
      let (r, m') = s.step m in
      let polled' = polled || r.polled_hardware in
      let (fired, f') = check_step (s.pc m') r.at_boundary f in
      let rest = batch_loop n polled' (carry + r.weight) target f' m' in
      if not (ltb carry target)
      then some (record {
        machine = m;
        carry = carry - target;
        controller = f;
        stop = none_yet;
        polled_hardware = polled;
      })
      else if r.breakpoint_hit
      then some (record {
        machine = m';
        carry = carry;
        controller = f;
        stop = breakpoint;
        polled_hardware = polled;
      })
      else elim fired [
        | none ↦ rest
        | some owner ↦ some (record {
          machine = m';
          carry = carry + r.weight;
          controller = f';
          stop = freeze owner;
          polled_hardware = polled';
        })
      ]

  -- A step weighs at least 1, so `target` rounds are enough.
  unfoldable pub run_batch : ℕ → ℕ → FreezeController → M → Option (Batch M)
  unfolding batch_loop
  run_batch carry target f m = batch_loop target false carry target f m

  -- What follows a batch, by how it stopped: `more` runs the next ones.
  abbrev pub proceed :
      (ℕ → FreezeController → M → Option (Batch M)) → Batch M → Stop → Option (Batch M)
  proceed more b none_yet = more b.carry b.controller b.machine
  proceed more b breakpoint = some b
  proceed more b (freeze o) = some b

  abbrev pub followed :
      (ℕ → FreezeController → M → Option (Batch M)) → Option (Batch M) → Option (Batch M)
  followed more none = none
  followed more (some b) = proceed more b b.stop

  -- Batches of the given targets, up to the first that stops early.
  unfoldable pub run_batches : List ℕ → ℕ → FreezeController → M → Option (Batch M)
  unfolding run_batch
  run_batches [] carry f m = some (record {
    machine = m;
    carry = carry;
    controller = f;
    stop = none_yet;
    polled_hardware = false;
  })
  run_batches (t ∷ ts) carry f m = followed (run_batches ts) (run_batch carry t f m)

unfoldable pub should_sleep : Bool → ℕ → Bool → Model → Bool
unfolding info contains
should_sleep full_speed pc polled model =
    if not full_speed then true else contains (info model).idle_and_key_detect pc || polled
