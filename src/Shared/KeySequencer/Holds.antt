-- ===== src/Shared/KeySequencer/Holds.antt =====
-- A task presses one key at a time, holds it long enough, and lets go of it whatever happens.
use calc_u.Base.{
  ℕ, zero, suc, ◌+◌, ◌≤◌, ◌≡◌, refl, ap, inl, inr, Bool, true, false, not, ◌&&◌, ◌||◌,
  if◌then◌else◌, ltb, ◌==◌, ◌∷◌, Option, none, some, arith, Bool-cases,
}
use mathlib.Core.Path.{subst}
use calc_u.Shared.KeySequencer.Progress.{IsResult, step-Ends}
use calc_u.Shared.Model.{PcRange}
use calc_u.Shared.KeySequencer.{
  to_phase, can_press, pressed, is_through, in_loop, apply_event, is_next,
}
use calc_u.Shared.KeySequencer.{is_reload}
use calc_u.Shared.KeySequencer.{
  Event, Kind, Host, Phase, Run, Turn, again, until, finished, next, waiting_to_press, holding,
  waiting_idle, sleeping, waiting_to_apply, waiting_host, poll, finish, try_press, hold, wait_idle,
  sleep, try_apply, wait_host, begin, next_event, take_event, round_in, round, rounds, resumed,
  start, step_fuel, step,
}
use calc_u.Shared.KeySequencer.{
  key, wait, trace, full_speed, regular_speed, zero_elapse_time, report_elapse_time, reload,
  arm_card, insert_card, printer_trace, cut_paper, show_panel, freeze, freeze_on_start, single_step,
  resume,
}
use calc_u.Shared.KeySequencer.Log.{Log, down, IsPlayed, is_holding, Fits}

module _ {ℓ} {H : Type ℓ} (host : Host H) where
  -- The host that keeps a log of its calls.
  abbrev pub logged : Host (Log × H)
  logged = record {
    act = λ now a h. ((now, a) ∷ h.0, host.act now a h.1);
    pc = λ h. host.pc h.1;
    is_frozen = λ h. host.is_frozen h.1;
    host_pending = λ h. host.host_pending h.1;
  }

  abbrev pub IsKept : Run (Log × H) → Type 0
  IsKept r =
      IsPlayed (r.host.0) × Fits (is_holding r.task.phase) r.task.code r.task.wake (down (r.host.0))

  -- A task with no key down.
  abbrev pub IsUp : Run (Log × H) → Type 0
  IsUp r = IsPlayed (r.host.0) × (down (r.host.0) ≡ none)

  -- After a round: when the task has ended, no key is down.
  abbrev pub Settles : Turn × Run (Log × H) → Type 0
  Settles (again, r) = IsKept r
  Settles (until t, r) = IsKept r
  Settles (finished, r) = IsUp r

  module _ (loop : PcRange) (cancelled : Bool) (now : ℕ) where
    begin-Settles :
        (k : Kind) (e : Event) (r : Run (Log × H))
        → r.task.phase ≡ next
        → IsUp r
        → IsKept (begin logged loop cancelled now k e r)
    unfolding begin
    begin-Settles key e r h (p, u) = (p, u)
    begin-Settles wait e r h (p, u) = (p, u)
    begin-Settles trace e r h (p, u) = (p, rw h u)
    begin-Settles full_speed e r h (p, u) = (p, rw h u)
    begin-Settles regular_speed e r h (p, u) = (p, rw h u)
    begin-Settles zero_elapse_time e r h (p, u) = (p, rw h u)
    begin-Settles report_elapse_time e r h (p, u) = (p, rw h u)
    begin-Settles reload e r h (p, u) = (p, u)
    begin-Settles arm_card e r h (p, u) = (p, rw h u)
    begin-Settles insert_card e r h (p, u) = (p, u)
    begin-Settles printer_trace e r h (p, u) = (p, u)
    begin-Settles cut_paper e r h (p, u) = (p, u)
    begin-Settles show_panel e r h (p, u) = (p, u)
    begin-Settles freeze e r h (p, u) = (p, u)
    begin-Settles freeze_on_start e r h (p, u) = (p, u)
    begin-Settles single_step e r h (p, u) = (p, u)
    begin-Settles resume e r h (p, u) = (p, u)

    -- In a phase that holds no key none is down, and the other way round.
    up : (r : Run (Log × H)) → is_holding r.task.phase ≡ false → IsKept r → IsUp r
    up r h (p, f) = (p, subst (λ b. Fits b r.task.code r.task.wake (down (r.host.0))) h f)

    finish-IsUp : (r : Run (Log × H)) → IsUp r → IsUp (finish logged loop cancelled now r)
    unfolding finish
    finish-IsUp r h = elim (Bool-cases r.task.script) [ inl t ↦ rw t h | inr f ↦ rw f h ]

    poll-Settles :
        (r : Run (Log × H))
        → is_holding r.task.phase ≡ false
        → IsKept r
        → Settles (poll logged loop cancelled now r)
    unfolding poll
    poll-Settles r h k = let (p, u) = up r h k in (p, rw h u)

    take-Settles :
        (o : Option Event) (r : Run (Log × H))
        → r.task.phase ≡ next
        → IsKept r
        → Settles (take_event logged loop cancelled now o r)
    unfolding take_event
    take-Settles none r h k = finish-IsUp r (up r (ap is_holding h) k)
    take-Settles (some e) r h k = elim (Bool-cases (r.task.script && cancelled)) [
      | inl t ↦ rw t (finish-IsUp r (up r (ap is_holding h) k))
      | inr f ↦ rw f (elim (Bool-cases cancelled) [
        | inl c ↦ rw c (up r (ap is_holding h) k)
        | inr n ↦ rw n (
            begin-Settles e.kind e
              (record r { task = record (r.task) { position = r.task.position + 1 } }) h
              (up r (ap is_holding h) k))
      ])
    ]

    press-IsKept : (r : Run (Log × H)) → IsUp r → IsKept (pressed logged loop cancelled now r)
    press-IsKept r (p, u) = elim (Bool-cases r.task.script) [
      | inl t ↦ rw t ((u, p), (now, refl, refl))
      | inr f ↦ rw f ((u, p), (now, refl, refl))
    ]

    hold-Settles :
        (r : Run (Log × H))
        → is_holding r.task.phase ≡ true
        → IsKept r
        → Settles (hold logged loop cancelled now r)
    unfolding hold
    hold-Settles r h (p, f) = elim (Bool-cases (ltb now r.task.wake)) [
      | inl t ↦ rw t (p, f)
      | inr late ↦
          let (since, d, w) = subst (λ b. Fits b r.task.code r.task.wake (down (r.host.0))) h f in
          rw late (((since, d, ground (arith, w, late)), p), refl)
    ]

    apply-IsKept :
        (o : Option Event) (r : Run (Log × H))
        → IsUp r
        → IsKept (
            to_phase logged loop cancelled now waiting_host
              (record r { host = apply_event logged loop cancelled now o r.host }))
    apply-IsKept none r u = u
    apply-IsKept (some e) r u = elim (Bool-cases (is_reload e.kind)) [
      | inl t ↦ rw t u
      | inr f ↦ rw f u
    ]

    -- A round that may go back to the next event, or look again.
    or_poll :
        (b : Bool) (r : Run (Log × H))
        → is_holding r.task.phase ≡ false
        → IsKept r
        → Settles (
            if b
            then (again, to_phase logged loop cancelled now next r)
            else poll logged loop cancelled now r)
    or_poll true r h k = up r h k
    or_poll false r h k = poll-Settles r h k

    in-Settles :
        (p : Phase) (r : Run (Log × H))
        → r.task.phase ≡ p
        → IsKept r
        → Settles (round_in logged loop cancelled now p r)
    unfolding round_in try_press wait_idle sleep try_apply wait_host next_event
    in-Settles next r h k = take-Settles _ r h k
    in-Settles holding r h k = hold-Settles r (ap is_holding h) k
    in-Settles waiting_idle r h k =
        or_poll (is_through logged loop cancelled now r) r (ap is_holding h) k
    in-Settles waiting_host r h k =
        or_poll (cancelled || not (host.host_pending (r.host.1))) r (ap is_holding h) k
    in-Settles sleeping r h k = elim (Bool-cases (ltb now r.task.wake && not cancelled)) [
      | inl t ↦ rw t k
      | inr f ↦ rw f (up r (ap is_holding h) k)
    ]
    in-Settles waiting_to_press r h k = elim (Bool-cases cancelled) [
      | inl t ↦ rw t (up r (ap is_holding h) k)
      | inr f ↦ rw f (elim (Bool-cases (can_press logged loop cancelled now r)) [
        | inl t ↦ rw t (press-IsKept r (up r (ap is_holding h) k))
        | inr f ↦ rw f (poll-Settles r (ap is_holding h) k)
      ])
    ]
    in-Settles waiting_to_apply r h k = elim (Bool-cases cancelled) [
      | inl t ↦ rw t (up r (ap is_holding h) k)
      | inr f ↦
          rw f
            (elim (Bool-cases
              (host.is_frozen (r.host.1) || not (in_loop logged loop cancelled now r))) [
                | inl t ↦ rw t (poll-Settles r (ap is_holding h) k)
                | inr f ↦ rw f (apply-IsKept _ r (up r (ap is_holding h) k))
              ])
    ]

    round-Settles : (r : Run (Log × H)) → IsKept r → Settles (round logged loop cancelled now r)
    unfolding round
    round-Settles r k = in-Settles r.task.phase r refl k

    abbrev Settled : Option (Turn × Run (Log × H)) → Type 0
    Settled none = 0 ≤ 0
    Settled (some p) = Settles p

    resumed-Settled :
        (more : Run (Log × H) → Option (Turn × Run (Log × H))) (p : Turn × Run (Log × H))
        → Settles p
        → ((r : Run (Log × H)) → IsKept r → Settled (more r))
        → Settled (resumed logged loop cancelled now more p)
    resumed-Settled more (again, r) h go = go r h
    resumed-Settled more (until t, r) h go = h
    resumed-Settled more (finished, r) h go = h

    rounds-Settled :
        (fuel : ℕ) (r : Run (Log × H))
        → IsKept r
        → Settled (rounds logged loop cancelled now fuel r)
    unfolding rounds
    rounds-Settled zero r k = omega arith
    rounds-Settled (suc n) r k =
        resumed-Settled (rounds logged loop cancelled now n) (round logged loop cancelled now r)
          (round-Settles r k) (rounds-Settled n)

    start-IsKept : (r : Run (Log × H)) → IsKept r → IsKept (start logged loop cancelled now r)
    unfolding start
    start-IsKept r k =
        elim (Bool-cases (is_next r.task.phase && r.task.script && (r.task.position == 0))) [
          | inl t ↦ rw t k
          | inr f ↦ rw f k
        ]

    step-Settled : (r : Run (Log × H)) → IsKept r → Settled (step logged loop cancelled now r)
    unfolding step
    step-Settled r k =
        rounds-Settled (step_fuel logged loop cancelled now r) (start logged loop cancelled now r)
          (start-IsKept r k)

    -- A task that runs, wherever it stood and whether it was cancelled, ends its run with its keys
    -- played: each key went down while none was, came up as the same key at least 100 ms later,
    -- and none is down when the task has ended.
    pub step-Settles :
        (r : Run (Log × H))
        → IsKept r
        → (t : Turn) × (r' : Run (Log × H)) × (step logged loop cancelled now r ≡ some (t, r'))
          × IsResult logged loop cancelled now t
          × Settles (t, r')
    step-Settles r k =
        let (t, r', e, result) = step-Ends logged loop cancelled now r in
        (t, r', e, result, subst Settled e (step-Settled r k))
