-- ===== src/Shared/Runner.antt =====
-- Shared/EmulationRunner.cpp, the cooperative run loop: `start`, `runOneBatch`, `pump`. The job queue
-- is left out: whether the run loop is its front is an argument, and so are the jitter's random
-- offsets and the readings of the wall clock, by their number. Callbacks do not change the runner.
-- Times are in microseconds.
pub mod Laws
use calc_u.Base.{
  ℕ, zero, suc, ◌+◌, ◌-◌, Bool, true, false, not, ◌&&◌, ◌||◌, if◌then◌else◌, leb, ltb, Option, none,
  some,
}
use calc_u.Core.Stepper.{Stepper}
use calc_u.Shared.Model.{Model}
use calc_u.Shared.Freeze.{FreezeController}
use calc_u.Shared.Pacing.{Batch, Stop, none_yet, breakpoint, freeze, run_batch, should_sleep}
use calc_u.Shared.Pacing.Jitter
use calc_u.Shared.Pacing.Jitter.{BatchJitter}

pub record Runner {ℓ} (M : Type ℓ) : Type ℓ where
  pub machine : M
  pub controller : FreezeController
  pub carry : ℕ
  pub jitter : BatchJitter
  pub running : Bool
  pub full_speed : Bool
  pub deadline : ℕ
  -- how many offsets were drawn, and how often the clock was read
  pub drawn : ℕ
  pub readings : ℕ

pub data BatchEnd : Type 0 where
  stopped paced unpaced : BatchEnd

abbrev pub batch_time : ℕ
batch_time = 20000

abbrev pub max_lag : ℕ
max_lag = 100000

abbrev pub full_speed_slice : ℕ
full_speed_slice = 10000

-- The batch that is due is late by more than the limit.
abbrev pub is_lagging : ℕ → ℕ → Bool
is_lagging deadline now = ltb (deadline + max_lag) now

module _ {ℓ} {M : Type ℓ} (s : Stepper M) (model : Model) (draw : ℕ → ℕ) (wall : ℕ → ℕ) where
  -- A deadline of 0 lags at once.
  unfoldable pub start : Runner M → Runner M
  unfolding Jitter.reset
  start r =
      if r.running
      then r
      else record r { running = true; carry = 0; jitter = Jitter.reset r.jitter; deadline = 0 }

  -- The runner after a batch, by how it stopped.
  abbrev pub after_batch : Runner M → Batch M → Stop → BatchEnd × Runner M
  after_batch r b none_yet =
      let sleep = should_sleep r.full_speed (s.pc b.machine) b.polled_hardware model in
      (if sleep then paced else unpaced, r)
  after_batch r b breakpoint = (stopped, record r { running = false })
  after_batch r b (freeze o) = (stopped, record r { running = false })

  abbrev pub take_batch : Runner M → Option (Batch M) → Option (BatchEnd × Runner M)
  take_batch r none = none
  take_batch r (some b) = some (
      after_batch (record r { machine = b.machine; carry = b.carry; controller = b.controller }) b
        b.stop)

  unfoldable pub run_one_batch : Runner M → Option (BatchEnd × Runner M)
  unfolding run_batch Jitter.next
  run_one_batch r =
      let (target, j) = Jitter.next (draw r.drawn) r.jitter in
      let drawn = record r { jitter = j; drawn = r.drawn + 1 } in
      take_batch drawn (run_batch s r.carry target r.controller r.machine)

  -- What follows a batch: the end of the pump, or another batch.
  abbrev pub go_on :
      ℕ → ℕ → (Runner M → Option (Runner M)) → Option (BatchEnd × Runner M) → Option (Runner M)
  go_on slice_end now more none = none
  go_on slice_end now more (some (stopped, r)) = some r
  go_on slice_end now more (some (paced, r)) =
      more (record r { deadline = r.deadline + batch_time })
  go_on slice_end now more (some (unpaced, r)) =
      let read = record r { readings = r.readings + 1 } in
      let rest = more read in
      if leb slice_end (wall r.readings) then some (record read { deadline = now }) else rest

  -- The loop on fuel.
  unfoldable pub pump_loop : ℕ → ℕ → ℕ → Runner M → Option (Runner M)
  pump_loop zero slice_end now r = none
  pump_loop (suc n) slice_end now r =
      let rest = go_on slice_end now (pump_loop n slice_end now) (run_one_batch r) in
      if r.running && leb r.deadline now then rest else some r

  -- A schedule that lags starts over at `now`.
  abbrev pub scheduled : ℕ → Runner M → Runner M
  scheduled now r = record r {
    deadline = if is_lagging r.deadline now then now else r.deadline;
    readings = r.readings + 1;
  }

  unfoldable pub pump : ℕ → Bool → ℕ → Runner M → Option (Runner M)
  pump fuel is_front now r =
      let due = record r {
        deadline = if is_lagging r.deadline now then now else r.deadline;
        readings = r.readings + 1;
      } in
      if r.running && is_front
      then pump_loop fuel (wall r.readings + full_speed_slice) now due
      else some r
