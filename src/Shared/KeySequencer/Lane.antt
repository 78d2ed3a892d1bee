-- ===== src/Shared/KeySequencer/Lane.antt =====
-- Shared/KeySequencer.cpp, `Lane`: a serial queue of tasks, advanced by its owner.
use calc_u.Base.{
  ℕ, zero, suc, ◌+◌, ◌%◌, Bool, not, if◌then◌else◌, ltb, ◌==◌, List, [], ◌∷◌, ◌++◌, Option, none,
  some, length,
}
use calc_u.Shared.Model.{PcRange}
use calc_u.Shared.KeySequencer.{Host, Task, Run, Turn, again, until, finished, step}

pub record Lane : Type 0 where
  pub generation : ℕ
  pub tasks : List Task
  pub current : Option Task

abbrev pub init : Lane
init = record { generation = 0; tasks = []; current = none }

unfoldable pub post : Task → Lane → Lane
post t l = record l { tasks = l.tasks ++ (record t { generation = l.generation } ∷ []) }

unfoldable pub cancel : Lane → Lane
cancel l = record l { generation = (l.generation + 1) % 18446744073709551616; tasks = [] }

abbrev pub is_cancelled : Lane → ℕ → Bool
is_cancelled l generation = not (l.generation == generation)

-- The first task that is not cancelled, and the queue behind it.
unfoldable pub take_next : ℕ → List Task → Option Task × List Task
take_next generation [] = (none, [])
take_next generation (t ∷ ts) =
    let rest = take_next generation ts in if t.generation == generation then (some t, ts) else rest

-- A lane with the host that it drives.
pub record Laned {ℓ} (H : Type ℓ) : Type ℓ where
  pub lane : Lane
  pub host : H
  pub playing : Bool

module _ {ℓ} {H : Type ℓ} (host : Host H) (scan_loop : PcRange) (now : ℕ) where
  -- The task in progress, or the next of the queue.
  abbrev pub pick_from : Option Task → Option Task × List Task → Laned H → Option Task × Laned H
  pick_from (some c) queue s = (some c, s)
  pick_from none (t, ts) s = (t, record s { lane = record (s.lane) { tasks = ts; current = t } })

  abbrev pub pick : Laned H → Option Task × Laned H
  pick s = pick_from s.lane.current (take_next s.lane.generation s.lane.tasks) s

  abbrev pub with_run : Laned H → Option Task → Run H → Laned H
  with_run s current r = record s {
    lane = record (s.lane) { current = current };
    host = r.host;
    playing = r.playing;
  }

  -- What follows the step of the task in progress: nothing more at this time, or another task.
  abbrev pub follow :
      (Laned H → Option (Option ℕ × Laned H))
      → Laned H
      → Option (Turn × Run H)
      → Option (Option ℕ × Laned H)
  follow more s none = none
  follow more s (some (again, r)) = none
  follow more s (some (finished, r)) = more (with_run s none r)
  follow more s (some (until t, r)) =
      let waiting = with_run s (some r.task) r in
      let rest = more waiting in if ltb now t then some (some t, waiting) else rest

  abbrev pub run_picked :
      (Laned H → Option (Option ℕ × Laned H)) → Option Task × Laned H → Option (Option ℕ × Laned H)
  run_picked more (none, s) = some (none, s)
  run_picked more (some t, s) = follow more s (
      step host scan_loop (is_cancelled s.lane t.generation) now
        (record { task = t; host = s.host; playing = s.playing }))

  -- The loop on fuel: when the task in progress next wants to run, `none` when the lane is idle.
  unfoldable pub advance_loop : ℕ → Laned H → Option (Option ℕ × Laned H)
  advance_loop zero s = none
  advance_loop (suc n) s = run_picked (advance_loop n) (pick s)

  -- Each round but the last ends a task.
  unfoldable pub advance : Laned H → Option (Option ℕ × Laned H)
  unfolding advance_loop
  advance s = advance_loop (length s.lane.tasks + 2) s
