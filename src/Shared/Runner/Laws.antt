-- ===== src/Shared/Runner/Laws.antt =====
-- At regular speed a pump ends, on schedule.
use calc_u.Base.{
  ℕ, zero, suc, ◌+◌, ◌*◌, ◌≤◌, ◌<◌, ◌≡◌, refl, ap, ◌∙◌, ◌⊎◌, inl, inr, Bool, true, false, ◌&&◌,
  if◌then◌else◌, leb, Option, some, arith, Bool-cases,
}
use calc_u.Core.Stepper.{Stepper}
use calc_u.Shared.Model.{Model}
use calc_u.Shared.Pacing.{Batch, Stop, none_yet, breakpoint, freeze, should_sleep}
use calc_u.Shared.Pacing.Laws.{run_batch_lem}
use calc_u.Shared.Pacing.Jitter
use calc_u.Shared.Runner.{scheduled}
use calc_u.Shared.Runner.{
  Runner, BatchEnd, stopped, paced, unpaced, batch_time, full_speed_slice, is_lagging, after_batch,
  take_batch, run_one_batch, go_on, pump_loop, pump, scheduled,
}

module _ {ℓ} {M : Type ℓ} (s : Stepper M) (model : Model) (draw : ℕ → ℕ) (wall : ℕ → ℕ) where
  -- How a batch at regular speed leaves the schedule.
  abbrev IsRegular : Runner M → BatchEnd × Runner M → Type 0
  IsRegular r (paced, r') =
      (r'.deadline ≡ r.deadline) × (r'.full_speed ≡ false) × (r'.running ≡ r.running)
  IsRegular r (stopped, r') = (r'.deadline ≡ r.deadline) × (r'.running ≡ false)
  IsRegular r (unpaced, r') = 1 ≤ 0

  sleeps : (pc : ℕ) (polled : Bool) → should_sleep false pc polled model ≡ true
  unfolding should_sleep
  sleeps pc polled = refl

  after-IsRegular :
      (r : Runner M) (b : Batch M) (e : Stop)
      → r.full_speed ≡ false
      → IsRegular r (after_batch s model draw wall r b e)
  after-IsRegular r b none_yet h =
      rw (h, sleeps (s.pc b.machine) b.polled_hardware) (refl, refl, refl)
  after-IsRegular r b breakpoint h = (refl, refl)
  after-IsRegular r b (freeze o) h = (refl, refl)

  run_one_batch_lem :
      (r : Runner M)
      → r.full_speed ≡ false
      → (p : BatchEnd × Runner M) × (run_one_batch s model draw wall r ≡ some p) × IsRegular r p
  unfolding run_one_batch
  run_one_batch_lem r h =
      let (target, j) = Jitter.next (draw r.drawn) r.jitter in
      let (b, k, e, _, _) = run_batch_lem s r.carry target r.controller r.machine in
      let drawn = record r { jitter = j; drawn = r.drawn + 1 } in
      let filled = record drawn {
        machine = b.machine;
        carry = b.carry;
        controller = b.controller;
      } in
      (
        after_batch s model draw wall filled b b.stop,
        ap (take_batch s model draw wall drawn) e,
        after-IsRegular filled b b.stop h,
      )

  -- The pump ended: the loop was stopped, or the next batch is due later, and by at most a batch.
  abbrev pub IsOnSchedule : ℕ → Runner M → Type 0
  IsOnSchedule now r' =
      (r'.running ≡ false) ⊎ ((now < r'.deadline) × (r'.deadline ≤ now + batch_time))

  abbrev Pumped : ℕ → Option (Runner M) → Type ℓ
  Pumped now o = (r' : Runner M) × (o ≡ some r') × IsOnSchedule now r'

  go_on-Pumped :
      (slice_end now : ℕ) (r : Runner M) (more : Runner M → Option (Runner M))
      (p : BatchEnd × Runner M)
      → IsRegular r p
      → ((r' : Runner M)
          → r'.full_speed ≡ false
          → r'.deadline ≡ r.deadline + batch_time
          → Pumped now (more r'))
      → Pumped now (go_on s model draw wall slice_end now more (some p))
  go_on-Pumped slice_end now r more (paced, r') (d, f, _) go =
      go (record r' { deadline = r'.deadline + batch_time }) f (omega (arith, d))
  go_on-Pumped slice_end now r more (stopped, r') (d, h) go = (r', refl, inl h)
  go_on-Pumped slice_end now r more (unpaced, r') h go = absurd (omega (arith, h))

  pump_loop_done :
      (n slice_end now : ℕ) (r : Runner M)
      → (r.running && leb r.deadline now) ≡ false
      → pump_loop s model draw wall (suc n) slice_end now r ≡ some r
  unfolding pump_loop
  pump_loop_done n slice_end now r h = rw h refl

  pump_loop_more :
      (n slice_end now : ℕ) (r : Runner M) (p : BatchEnd × Runner M)
      → (r.running && leb r.deadline now) ≡ true
      → run_one_batch s model draw wall r ≡ some p
      → pump_loop s model draw wall (suc n) slice_end now r
        ≡ go_on s model draw wall slice_end now
            (pump_loop s model draw wall n slice_end now)
            (some p)
  unfolding pump_loop
  pump_loop_more n slice_end now r p h e = rw (h, e) refl

  over-IsOnSchedule :
      (now : ℕ) (r : Runner M)
      → (r.running && leb r.deadline now) ≡ false
      → r.deadline ≤ now + batch_time
      → IsOnSchedule now r
  over-IsOnSchedule now r h d = elim (Bool-cases r.running) [
    | inl on ↦ inr (ground (arith, h, on), d)
    | inr off ↦ inl off
  ]

  is_due : (now : ℕ) (r : Runner M) → (r.running && leb r.deadline now) ≡ true → r.deadline ≤ now
  is_due now r h = ground (arith, h)

  -- A round with a batch, where what is left of the fuel is enough after it.
  due_round :
      (n slice_end now : ℕ) (r : Runner M)
      → r.full_speed ≡ false
      → (r.running && leb r.deadline now) ≡ true
      → ((r' : Runner M)
          → r'.full_speed ≡ false
          → r'.deadline ≡ r.deadline + batch_time
          → Pumped now (pump_loop s model draw wall n slice_end now r'))
      → Pumped now (pump_loop s model draw wall (suc n) slice_end now r)
  due_round n slice_end now r f t go =
      let (p, e, regular) = run_one_batch_lem r f in
      let (r', e', fits) =
        go_on-Pumped slice_end now r (pump_loop s model draw wall n slice_end now) p regular go in
      (r', pump_loop_more n slice_end now r p t e ∙ e', fits)

  pump_loop-Pumped :
      (n slice_end now : ℕ) (r : Runner M)
      → r.full_speed ≡ false
      → r.deadline ≤ now + batch_time
      → now < r.deadline + batch_time * n
      → Pumped now (pump_loop s model draw wall (suc n) slice_end now r)
  pump_loop-Pumped zero slice_end now r f d l =
      elim (Bool-cases (r.running && leb r.deadline now)) [
        | inr over ↦ (r, pump_loop_done 0 slice_end now r over, over-IsOnSchedule now r over d)
        | inl t ↦ absurd (omega (arith, is_due now r t, l))
      ]
  pump_loop-Pumped (suc n) slice_end now r f d l =
      elim (Bool-cases (r.running && leb r.deadline now)) [
        | inr over ↦
            (r, pump_loop_done (suc n) slice_end now r over, over-IsOnSchedule now r over d)
        | inl t ↦
            let due = is_due now r t in
            due_round (suc n) slice_end now r f t (λ r' f' d'.
              pump_loop-Pumped n slice_end now r' f' (omega (arith, d', due))
                (omega (arith, d', l)))
      ]

  pump-if :
      (fuel now : ℕ) (r : Runner M) (b : Bool)
      → r.running && true ≡ b
      → pump s model draw wall fuel true now r ≡ (
          if b
          then pump_loop s model draw wall fuel
              (wall r.readings + full_speed_slice)
              now
              (scheduled s model draw wall now r)
          else some r)
  unfolding pump
  pump-if fuel now r b h =
      ap
        (λ t.
          if t
          then pump_loop s model draw wall fuel (wall r.readings + full_speed_slice) now
              (scheduled s model draw wall now r)
          else some r)
        h

  deadline-scheduled :
      (now : ℕ) (r : Runner M)
      → r.deadline ≤ now + batch_time
      → let d = (scheduled s model draw wall now r).deadline in
        (d ≤ now + batch_time) × (now < d + batch_time * 6)
  deadline-scheduled now r d = elim (Bool-cases (is_lagging r.deadline now)) [
    | inl t ↦ rw t (omega arith, omega arith)
    | inr f ↦ rw f (d, ground (arith, f))
  ]

  -- At regular speed a pump always ends, after at most six batches, however long it was away: the
  -- loop was stopped, or its next batch is due later than now, and by at most the time of one
  -- batch. The deadline before may lie at most a batch ahead, as a pump leaves it.
  pub pump-IsOnSchedule :
      (now : ℕ) (r : Runner M)
      → r.full_speed ≡ false
      → r.deadline ≤ now + batch_time
      → (r' : Runner M) × (pump s model draw wall 7 true now r ≡ some r') × IsOnSchedule now r'
  pump-IsOnSchedule now r f d = elim (Bool-cases r.running) [
    | inr off ↦ (r, pump-if 7 now r false (rw off refl), inl off)
    | inl on ↦
        let (a, b) = deadline-scheduled now r d in
        let (r', e, fits) =
          pump_loop-Pumped 6 (wall r.readings + full_speed_slice) now
            (scheduled s model draw wall now r) f a b in
        (r', pump-if 7 now r true (rw on refl) ∙ e, fits)
  ]
