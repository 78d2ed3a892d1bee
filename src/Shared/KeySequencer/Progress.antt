-- ===== src/Shared/KeySequencer/Progress.antt =====
-- The loop of `step` ends: each round that goes on takes the task nearer to its end.
use calc_u.Base.{
  ℕ, zero, suc, ◌+◌, ◌-◌, ◌*◌, ◌≤◌, ◌<◌, ◌≡◌, refl, ap, inl, inr, Bool, true, false, not, ◌&&◌,
  ◌||◌, if◌then◌else◌, ltb, ◌==◌, List, [], ◌∷◌, Option, none, some, length, get_elem?, arith,
  Bool-cases,
}
use calc_u.Shared.KeySequencer.{to_phase, can_press, pressed, is_through, in_loop, hold_time}
use calc_u.Shared.KeySequencer.{is_next}
use calc_u.Shared.Model.{PcRange}
use calc_u.Shared.KeySequencer.{
  Event, Kind, Host, Phase, Run, Turn, again, until, finished, next, waiting_to_press, holding,
  waiting_idle, sleeping, waiting_to_apply, waiting_host, poll, try_press, hold, wait_idle, sleep,
  try_apply, wait_host, begin, next_event, take_event, round_in, round, rounds, resumed, start,
  step_fuel, step, key, wait, trace, full_speed, regular_speed, zero_elapse_time,
  report_elapse_time, reload, arm_card, insert_card, printer_trace, cut_paper, show_panel, freeze,
  freeze_on_start, single_step, resume,
}

-- The rounds that a phase takes before the next event.
abbrev pub rank : Phase → ℕ
rank next = 0
rank waiting_to_press = 1
rank holding = 2
rank waiting_idle = 1
rank sleeping = 1
rank waiting_to_apply = 2
rank waiting_host = 1

rank-le : (p : Phase) → rank p ≤ 2
rank-le next = omega arith
rank-le waiting_to_press = omega arith
rank-le holding = omega arith
rank-le waiting_idle = omega arith
rank-le sleeping = omega arith
rank-le waiting_to_apply = omega arith
rank-le waiting_host = omega arith

get_elem?-lt {ℓ} :
    {A : Type ℓ} (xs : List A) (i : ℕ) (a : A) → get_elem? xs i ≡ some a → i < length xs
get_elem?-lt [] i a h = ground (arith, h)
get_elem?-lt (x ∷ xs) zero a h = omega arith
get_elem?-lt (x ∷ xs) (suc i) a h = omega (arith, get_elem?-lt xs i a h)

module _ {ℓ} {H : Type ℓ} (host : Host H) (scan_loop : PcRange) (cancelled : Bool) (now : ℕ) where
  abbrev pub left : Run H → ℕ
  left r = 3 * (length r.task.events - r.task.position) + rank r.task.phase

  -- A round that goes on leaves less than `n`; one that waits wakes up later.
  abbrev pub Descends : Turn × Run H → ℕ → Type 0
  Descends (again, r) n = left r < n
  Descends (until t, r) n = now < t
  Descends (finished, r) n = n ≤ n

  if-Descends :
      (b : Bool) (x y : Turn × Run H) (n : ℕ)
      → Descends x n
      → Descends y n
      → Descends (if b then x else y) n
  if-Descends true x y n h k = h
  if-Descends false x y n h k = k

  poll-Descends : (r : Run H) (n : ℕ) → Descends (poll host scan_loop cancelled now r) n
  unfolding poll
  poll-Descends r n = ground arith

  -- What an event starts takes at most two rounds, and no event.
  begin-left :
      (k : Kind) (e : Event) (r : Run H)
      → r.task.phase ≡ next
      → left (begin host scan_loop cancelled now k e r)
        ≤ 3 * (length r.task.events - r.task.position) + 2
  unfolding begin
  begin-left key e r h = omega arith
  begin-left wait e r h = omega arith
  begin-left trace e r h = omega (arith, ap rank h)
  begin-left full_speed e r h = omega (arith, ap rank h)
  begin-left regular_speed e r h = omega (arith, ap rank h)
  begin-left zero_elapse_time e r h = omega (arith, ap rank h)
  begin-left report_elapse_time e r h = omega (arith, ap rank h)
  begin-left reload e r h = omega arith
  begin-left arm_card e r h = omega (arith, ap rank h)
  begin-left insert_card e r h = omega arith
  begin-left printer_trace e r h = omega arith
  begin-left cut_paper e r h = omega arith
  begin-left show_panel e r h = omega arith
  begin-left freeze e r h = omega arith
  begin-left freeze_on_start e r h = omega arith
  begin-left single_step e r h = omega arith
  begin-left resume e r h = omega arith

  take-Descends :
      (o : Option Event) (r : Run H)
      → r.task.phase ≡ next
      → get_elem? r.task.events r.task.position ≡ o
      → Descends (take_event host scan_loop cancelled now o r) (left r)
  unfolding take_event
  take-Descends none r h at = omega arith
  take-Descends (some e) r h at =
      let lt = get_elem?-lt r.task.events r.task.position e at in
      let taken = record r { task = record (r.task) { position = r.task.position + 1 } } in
      if-Descends (r.task.script && cancelled) _ _ (left r) (omega arith) (
        if-Descends cancelled _ _ (left r) (omega arith)
          (omega (arith, begin-left e.kind e taken h, lt)))

  in-Descends :
      (p : Phase) (r : Run H)
      → r.task.phase ≡ p
      → Descends (round_in host scan_loop cancelled now p r) (left r)
  unfolding round_in try_press hold wait_idle sleep try_apply wait_host next_event
  in-Descends next r h = take-Descends _ r h refl
  in-Descends waiting_to_press r h =
      let n = left r in
      if-Descends cancelled (again, to_phase host scan_loop cancelled now next r)
        (if can_press host scan_loop cancelled now r
          then (until (now + hold_time), pressed host scan_loop cancelled now r)
          else poll host scan_loop cancelled now r)
        n (omega (arith, ap rank h))
        (if-Descends (can_press host scan_loop cancelled now r)
          (until (now + hold_time), pressed host scan_loop cancelled now r)
          (poll host scan_loop cancelled now r) n (omega arith) (poll-Descends r n))
  in-Descends holding r h = elim (Bool-cases (ltb now r.task.wake)) [
    | inl t ↦ rw t (ground (arith, t))
    | inr f ↦ rw f (omega (arith, ap rank h))
  ]
  in-Descends waiting_idle r h = elim (Bool-cases (is_through host scan_loop cancelled now r)) [
    | inl t ↦ rw t (omega (arith, ap rank h))
    | inr f ↦ rw f (poll-Descends r (left r))
  ]
  in-Descends sleeping r h = elim (Bool-cases (ltb now r.task.wake && not cancelled)) [
    | inl t ↦ rw t (ground (arith, t))
    | inr f ↦ rw f (omega (arith, ap rank h))
  ]
  in-Descends waiting_to_apply r h = elim (Bool-cases cancelled) [
    | inl t ↦ rw t (omega (arith, ap rank h))
    | inr f ↦
        rw f
          (elim (Bool-cases
            (host.is_frozen r.host || not (in_loop host scan_loop cancelled now r))) [
              | inl t ↦ rw t (poll-Descends r (left r))
              | inr f ↦ rw f (omega (arith, ap rank h))
            ])
  ]
  in-Descends waiting_host r h = elim (Bool-cases (cancelled || not (host.host_pending r.host))) [
    | inl t ↦ rw t (omega (arith, ap rank h))
    | inr f ↦ rw f (poll-Descends r (left r))
  ]

  round-Descends : (r : Run H) → Descends (round host scan_loop cancelled now r) (left r)
  unfolding round
  round-Descends r = in-Descends r.task.phase r refl

  -- The rounds give a result: a later wake-up time, or the end.
  abbrev pub IsResult : Turn → Type 0
  IsResult again = 1 ≤ 0
  IsResult (until t) = now < t
  IsResult finished = 0 ≤ 0

  abbrev pub Ends : Option (Turn × Run H) → Type ℓ
  Ends o = (t : Turn) × (r : Run H) × (o ≡ some (t, r)) × IsResult t

  resumed-Ends :
      (p : Turn × Run H) (n : ℕ) (more : Run H → Option (Turn × Run H))
      → Descends p n
      → ((r : Run H) → left r < n → Ends (more r))
      → Ends (resumed host scan_loop cancelled now more p)
  resumed-Ends (again, r) n more h go = go r h
  resumed-Ends (until t, r) n more h go = (until t, r, refl, h)
  resumed-Ends (finished, r) n more h go = (finished, r, refl, omega arith)

  rounds-Ends :
      (fuel : ℕ) (r : Run H) → left r < fuel → Ends (rounds host scan_loop cancelled now fuel r)
  unfolding rounds
  rounds-Ends zero r h = absurd (omega arith)
  rounds-Ends (suc n) r h =
      resumed-Ends (round host scan_loop cancelled now r) (left r)
        (rounds host scan_loop cancelled now n) (round-Descends r)
        (λ r' l. rounds-Ends n r' (omega (arith, l)))

  start-task : (r : Run H) → (start host scan_loop cancelled now r).task ≡ r.task
  unfolding start
  start-task r =
      elim (Bool-cases (is_next r.task.phase && r.task.script && (r.task.position == 0))) [
        | inl t ↦ rw t refl
        | inr f ↦ rw f refl
      ]

  -- Running a task always comes to an end, whatever the host answers: to a later time to wake up at, or
  -- to the end of the task.
  pub step-Ends : (r : Run H) → Ends (step host scan_loop cancelled now r)
  unfolding step step_fuel
  step-Ends r =
      rounds-Ends (step_fuel host scan_loop cancelled now r) (start host scan_loop cancelled now r)
        (rw (start-task r) (omega (arith, rank-le r.task.phase)))
