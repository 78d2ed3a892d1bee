-- ===== src/Shared/KeySequencer/Play.antt =====
-- A lane, whatever is posted, cancelled and advanced on it, plays its keys one by one.
use calc_u.Base.{
  ℕ, zero, suc, ◌+◌, ◌≤◌, ◌<◌, ◌≡◌, refl, ap, sym, ◌∙◌, inl, inr, Bool, false, ◌==◌, List, [], ◌∷◌,
  ◌++◌, Option, none, some, length, arith, Bool-cases, lt→ltb, map_some, ◌>>=◌,
}
use mathlib.Core.Path.{subst}
use calc_u.Shared.Model.{PcRange}
use calc_u.Shared.KeySequencer.{Event, Host, Task, Run, Turn, again, until, finished, new_task}
use calc_u.Shared.KeySequencer.Progress.{IsResult}
use calc_u.Shared.KeySequencer.Log.{Log, down, IsPlayed, Fits, is_holding}
use calc_u.Shared.KeySequencer.Holds.{logged, Settles, step-Settles}
use calc_u.Shared.KeySequencer.Lane.{
  post, cancel, is_cancelled, take_next, Laned, pick, pick_from, with_run, follow, run_picked,
  advance_loop, advance,
}

abbrev pub IsFresh : Task → Type 0
IsFresh t = is_holding t.phase ≡ false

abbrev pub AreFresh : List Task → Type 0
AreFresh [] = 0 ≤ 0
AreFresh (t ∷ ts) = IsFresh t × AreFresh ts

abbrev busy : Option Task → ℕ
busy none = 0
busy (some t) = 1

-- The key that is down while a task is in progress.
abbrev pub Carries : Option Task → Option (ℕ × ℕ) → Type 0
Carries none d = d ≡ none
Carries (some t) d = Fits (is_holding t.phase) t.code t.wake d

abbrev OptionFresh : Option Task → Type 0
OptionFresh none = 0 ≤ 0
OptionFresh (some t) = IsFresh t

take_next_lem :
    (g : ℕ) (ts : List Task)
    → AreFresh ts
    → let (o, rest) = take_next g ts in
      OptionFresh o × AreFresh rest × (length rest + busy o ≤ length ts)
unfolding take_next
take_next_lem g [] h = (h, h, omega arith)
take_next_lem g (t ∷ ts) (f, h) = elim (Bool-cases (t.generation == g)) [
  | inl e ↦ rw e (f, h, omega arith)
  | inr n ↦ let (a, b, c) = take_next_lem g ts h in rw n (a, b, omega (arith, c))
]

fresh-Carries : (o : Option Task) → OptionFresh o → (d : Option (ℕ × ℕ)) → d ≡ none → Carries o d
fresh-Carries none f d h = h
fresh-Carries (some t) f d h = rw f h

module _ {ℓ} {H : Type ℓ} (host : Host H) where
  abbrev log_of : Laned (Log × H) → Log
  log_of s = s.host.0

  -- The keys were played, the one that is down is the task's in progress, and no waiting task
  -- holds one.
  abbrev pub IsSound : Laned (Log × H) → Type 0
  IsSound s = IsPlayed (log_of s) × Carries s.lane.current (down (log_of s)) × AreFresh s.lane.tasks

  module _ (loop : PcRange) (now : ℕ) where
    abbrev Picked : Option Task × Laned (Log × H) → ℕ → Type 0
    Picked (none, s) n = IsSound s × (down (log_of s) ≡ none)
    Picked (some t, s) n =
        IsPlayed (log_of s)
        × Carries (some t) (down (log_of s))
        × AreFresh s.lane.tasks
        × (length s.lane.tasks + 1 ≤ n)

    queue-Picked :
        (o : Option Task) (ts : List Task) (s : Laned (Log × H)) (n : ℕ)
        → IsPlayed (log_of s)
        → down (log_of s) ≡ none
        → OptionFresh o
        → AreFresh ts
        → length ts + busy o ≤ n
        → Picked (pick_from (logged host) loop now none (o, ts) s) n
    queue-Picked none ts s n p d f fs l = ((p, d, fs), d)
    queue-Picked (some t) ts s n p d f fs l = (p, fresh-Carries (some t) f _ d, fs, l)

    pick-Picked :
        (c : Option Task) (s : Laned (Log × H))
        → IsPlayed (log_of s)
        → Carries c (down (log_of s))
        → AreFresh s.lane.tasks
        → Picked
            (pick_from (logged host) loop now c (take_next s.lane.generation s.lane.tasks) s)
            (length s.lane.tasks + busy c)
    pick-Picked (some c) s p d fs = (p, d, fs, omega arith)
    pick-Picked none s p d fs =
        let q = take_next s.lane.generation s.lane.tasks in
        let (f, rest, l) = take_next_lem s.lane.generation s.lane.tasks fs in
        queue-Picked (q.0) (q.1) s (length s.lane.tasks + 0) p d f rest (omega (arith, l))

    -- The lane waits for a later time, or is idle with no key down.
    abbrev pub Rests : Option ℕ → Laned (Log × H) → Type 0
    Rests none s = down (log_of s) ≡ none
    Rests (some t) s = now < t

    abbrev pub Advances : Option (Option ℕ × Laned (Log × H)) → Type ℓ
    Advances o = (w : Option ℕ) × (s : Laned (Log × H)) × (o ≡ some (w, s)) × IsSound s × Rests w s

    abbrev cost : Laned (Log × H) → ℕ
    cost s = length s.lane.tasks + busy s.lane.current

    turn-Advances :
        (more : Laned (Log × H) → Option (Option ℕ × Laned (Log × H))) (s : Laned (Log × H))
        (t : Turn) (r : Run (Log × H)) (cancelled : Bool)
        → IsResult (logged host) loop cancelled now t
        → Settles host (t, r)
        → AreFresh s.lane.tasks
        → ((s' : Laned (Log × H)) → IsSound s' → cost s' ≤ length s.lane.tasks → Advances (more s'))
        → Advances (follow (logged host) loop now more s (some (t, r)))
    turn-Advances more s again r c h k fs go = absurd (omega (arith, h))
    turn-Advances more s finished r c h (p, u) fs go =
        go (with_run (logged host) loop now s none r) (p, u, fs) (omega arith)
    turn-Advances more s (until t) r c h (p, f) fs go = (
      some t,
      with_run (logged host) loop now s (some r.task) r,
      rw (lt→ltb now t h) refl,
      (p, f, fs),
      h,
    )

    run_picked-Advances :
        (more : Laned (Log × H) → Option (Option ℕ × Laned (Log × H)))
        (x : Option Task × Laned (Log × H)) (n : ℕ)
        → Picked x n
        → ((s : Laned (Log × H)) → IsSound s → cost s < n → Advances (more s))
        → Advances (run_picked (logged host) loop now more x)
    run_picked-Advances more (none, s) n (k, d) go = (none, s, refl, k, d)
    run_picked-Advances more (some t, s) n (p, d, fs, l) go =
        let c = is_cancelled s.lane t.generation in
        let (turn, r, e, result, settled) =
          step-Settles host loop c now (record { task = t; host = s.host; playing = s.playing })
            (p, d) in
        let next_lem =
          turn-Advances more s turn r c result settled fs (λ s' k m. go s' k (omega (arith, m))) in
        subst Advances (sym (ap (follow (logged host) loop now more s) e)) next_lem

    loop-Advances :
        (fuel : ℕ) (s : Laned (Log × H))
        → IsSound s
        → cost s < fuel
        → Advances (advance_loop (logged host) loop now fuel s)
    unfolding advance_loop
    loop-Advances zero s k l = absurd (omega arith)
    loop-Advances (suc n) s (p, d, fs) l =
        run_picked-Advances (advance_loop (logged host) loop now n) (pick (logged host) loop now s)
          (cost s) (pick-Picked s.lane.current s p d fs)
          (λ s' k m. loop-Advances n s' k (omega (arith, m)))

    busy-le : (o : Option Task) → busy o ≤ 1
    busy-le none = omega arith
    busy-le (some t) = omega arith

    -- Advancing a lane always comes to an end: with a later time at which its task wants to go
    -- on, or idle with no key down; and its keys stay played.
    pub advance-Advances :
        (s : Laned (Log × H)) → IsSound s → Advances (advance (logged host) loop now s)
    unfolding advance
    advance-Advances s k =
        loop-Advances (length s.lane.tasks + 2) s k (omega (arith, busy-le s.lane.current))

  -- What happens to a lane: calls of its owner, time, and the host's own changes.
  pub data Op : Type ℓ where
    posted : List Event → Bool → Op
    cancelled : Op
    advanced : ℕ → Op
    changed : (H → H) → Op

  module _ (loop : PcRange) where
    abbrev pub happen : Op → Laned (Log × H) → Option (Laned (Log × H))
    happen (posted es script) s = some (record s { lane = post (new_task es script) s.lane })
    happen cancelled s = some (record s { lane = cancel s.lane })
    happen (advanced now) s = map_some (λ r. r.1) (advance (logged host) loop now s)
    happen (changed f) s = some (record s { host = (s.host.0, f s.host.1) })

    abbrev pub happen_all : List Op → Laned (Log × H) → Option (Laned (Log × H))
    happen_all [] s = some s
    happen_all (o ∷ os) s = happen o s >>= happen_all os

    append-AreFresh :
        (ts : List Task) (t : Task) → AreFresh ts → IsFresh t → AreFresh (ts ++ (t ∷ []))
    append-AreFresh [] t h f = (f, h)
    append-AreFresh (x ∷ ts) t (g, h) f = (g, append-AreFresh ts t h f)

    happen-IsSound :
        (o : Op) (s : Laned (Log × H))
        → IsSound s
        → (s' : Laned (Log × H)) × (happen o s ≡ some s') × IsSound s'
    unfolding post cancel
    happen-IsSound (posted es script) s (p, d, fs) =
        (_, refl, (p, d, append-AreFresh s.lane.tasks _ fs refl))
    happen-IsSound cancelled s (p, d, fs) = (_, refl, (p, d, omega arith))
    happen-IsSound (advanced now) s k =
        let (w, s', e, k', _) = advance-Advances loop now s k in
        (s', ap (map_some (λ r. r.1)) e, k')
    happen-IsSound (changed f) s k = (_, refl, k)

    -- Whatever is posted and cancelled, however time goes on and the host changes, a lane always
    -- comes to rest, and what it has played is sound: each key went down while none was, came up
    -- as the same key at least 100 ms later, and the key that is down, if any, is held by the
    -- task in progress.
    pub happen_all-IsSound :
        (os : List Op) (s : Laned (Log × H))
        → IsSound s
        → (s' : Laned (Log × H)) × (happen_all os s ≡ some s') × IsSound s'
    happen_all-IsSound [] s k = (s, refl, k)
    happen_all-IsSound (o ∷ os) s k =
        let (s', e, k') = happen-IsSound o s k in
        let (s'', e', k'') = happen_all-IsSound os s' k' in
        (s'', ap (λ r. r >>= happen_all os) e ∙ e', k'')
