-- ===== src/Shared/KeySequencer.antt =====
-- Shared/KeySequencer.cpp and Shared/KeySequencer.hpp: timed key input, in the cooperative mode. Here
-- are the tasks (a script, or the taps of a key binding) and `step`; the lanes that hold them and
-- the physical keyboard are the child modules. The host is an interface; time is in microseconds.
-- A callback does not call the sequencer back.
pub mod Lane
pub mod Keyboard
pub mod Progress
pub mod Log
pub mod Holds
pub mod Play
use calc_u.Base.{
  ℕ, zero, suc, ◌+◌, ◌-◌, ◌*◌, ◌/◌, ◌%◌, Bool, true, false, not, ◌&&◌, ◌||◌, if◌then◌else◌, leb,
  ltb, ◌==◌, List, [], ◌∷◌, Option, none, some, length, get_elem?,
}
use calc_u.Shared.Model.{PcRange, contains}

-- `KeystrokeEvent::Kind`
pub data Kind : Type 0 where
  key wait trace full_speed regular_speed zero_elapse_time report_elapse_time reload arm_card : Kind
  insert_card printer_trace cut_paper show_panel freeze freeze_on_start single_step resume : Kind

abbrev pub is_reload : Kind → Bool
is_reload reload = true
is_reload _ = false

-- An event: `pause` is `seconds` in microseconds, and `payload` stands for what only the host
-- reads (names, panels, a reload stage).
pub record Event : Type 0 where
  pub kind : Kind
  pub code : ℕ
  pub pause : ℕ
  pub payload : ℕ

-- The calls of `Host`; `none` of a held key is -1.
pub data Action : Type 0 where
  press_key release_key : ℕ → Action
  held_key_changed : Option ℕ → Action
  set_full_speed : Bool → Action
  scripted_trace : Event → Action
  zero_elapse report_elapse : Action
  apply_reload queue_card control : Event → Action
  playback_started playback_finished : Action

-- The host: what a call at a time does, and what the sequencer asks it.
pub record Host {ℓ} (H : Type ℓ) : Type ℓ where
  pub act : ℕ → Action → H → H
  pub pc : H → ℕ
  pub is_frozen : H → Bool
  pub host_pending : H → Bool

abbrev pub hold_time : ℕ
hold_time = 100000

abbrev pub scan_poll : ℕ
scan_poll = 1500

pub data Phase : Type 0 where
  next waiting_to_press holding waiting_idle sleeping waiting_to_apply waiting_host : Phase

abbrev pub is_next : Phase → Bool
is_next next = true
is_next _ = false

pub record Task : Type 0 where
  pub events : List Event
  pub script : Bool
  pub generation : ℕ
  pub position : ℕ
  pub phase : Phase
  pub wake : ℕ
  pub code : ℕ

abbrev pub new_task : List Event → Bool → Task
new_task events script = record {
  events = events;
  script = script;
  generation = 0;
  position = 0;
  phase = next;
  wake = 0;
  code = 0;
}

-- row × 5 + column of a matrix code.
abbrev pub highlight_id : ℕ → ℕ
highlight_id code = (code / 10 - 1) * 5 + (code % 10 - 1)

-- A task with the host that it drives, and `m_playing`.
pub record Run {ℓ} (H : Type ℓ) : Type ℓ where
  pub task : Task
  pub host : H
  pub playing : Bool

-- How a round of the loop of `step` ends: another round, a wake-up time, or the end of the task.
pub data Turn : Type 0 where
  again : Turn
  until : ℕ → Turn
  finished : Turn

module _ {ℓ} {H : Type ℓ} (host : Host H) (scan_loop : PcRange) (cancelled : Bool) (now : ℕ) where
  abbrev pub call : Action → Run H → Run H
  call a r = record r { host = host.act now a r.host }

  abbrev pub to_phase : Phase → Run H → Run H
  to_phase p r = record r { task = record (r.task) { phase = p } }

  abbrev pub in_loop : Run H → Bool
  in_loop r = contains scan_loop (host.pc r.host)

  -- Look again `kScanPoll` after the last look.
  unfoldable pub poll : Run H → Turn × Run H
  poll r =
      let t = r.task in
      let wake = if leb t.wake now then now + scan_poll else t.wake in
      (until wake, record r { task = record t { wake = wake } })

  unfoldable pub finish : Run H → Run H
  finish r =
      if r.task.script
      then call playback_finished (record r { playing = false })
      else call (held_key_changed none) r

  -- A script waits out a freeze; a keyboard tap goes in, as a finger would.
  abbrev pub can_press : Run H → Bool
  can_press r =
      let frozen = host.is_frozen r.host in
      if r.task.script then not frozen && in_loop r else frozen || in_loop r

  -- The key goes down; a keyboard tap shows it first.
  abbrev pub pressed : Run H → Run H
  pressed r =
      let shown =
        if r.task.script then r else call (held_key_changed (some (highlight_id r.task.code))) r in
      record (call (press_key r.task.code) shown) {
        task = record (r.task) { wake = now + hold_time; phase = holding };
      }

  unfoldable pub try_press : Run H → Turn × Run H
  unfolding poll
  try_press r =
      if cancelled
      then (again, to_phase next r)
      else if can_press r
      then (until (now + hold_time), pressed r)
      else poll r

  unfoldable pub hold : Run H → Turn × Run H
  hold r =
      if ltb now r.task.wake
      then (until r.task.wake, r)
      else (again, to_phase waiting_idle (call (release_key r.task.code) r))

  -- The key was seen, or there is no waiting for it.
  abbrev pub is_through : Run H → Bool
  is_through r = cancelled || host.is_frozen r.host || in_loop r

  unfoldable pub wait_idle : Run H → Turn × Run H
  unfolding poll
  wait_idle r = if is_through r then (again, to_phase next r) else poll r

  unfoldable pub sleep : Run H → Turn × Run H
  sleep r =
      if ltb now r.task.wake && not cancelled
      then (until r.task.wake, r)
      else (again, to_phase next r)

  abbrev pub apply_event : Option Event → H → H
  apply_event none h = h
  apply_event (some e) h =
      host.act now (if is_reload e.kind then apply_reload e else queue_card e) h

  -- The event is the one before the position.
  unfoldable pub try_apply : Run H → Turn × Run H
  unfolding poll
  try_apply r =
      let event = get_elem? r.task.events (r.task.position - 1) in
      if cancelled
      then (again, to_phase next r)
      else if host.is_frozen r.host || not (in_loop r)
      then poll r
      else (again, to_phase waiting_host (record r { host = apply_event event r.host }))

  unfoldable pub wait_host : Run H → Turn × Run H
  unfolding poll
  wait_host r =
      if cancelled || not (host.host_pending r.host) then (again, to_phase next r) else poll r

  -- The task waits from `now` on, in a phase.
  abbrev wait_in : Phase → Run H → Run H
  wait_in p r = record r { task = record (r.task) { wake = now; phase = p } }

  -- What an event of a kind starts.
  unfoldable pub begin : Kind → Event → Run H → Run H
  begin key e r = record r {
    task = record (r.task) { code = e.code; wake = now; phase = waiting_to_press };
  }
  begin wait e r = record r { task = record (r.task) { wake = now + e.pause; phase = sleeping } }
  begin trace e r = call (scripted_trace e) r
  begin full_speed e r = call (set_full_speed true) r
  begin regular_speed e r = call (set_full_speed false) r
  begin zero_elapse_time e r = call zero_elapse r
  begin report_elapse_time e r = call report_elapse r
  begin reload e r = wait_in waiting_to_apply r
  begin insert_card e r = wait_in waiting_to_apply r
  begin arm_card e r = call (queue_card e) r
  begin _ e r = wait_in waiting_host (call (control e) r)

  -- The event that comes, if any. A script ends at a cancel; a keyboard sequence then ends without
  -- clearing the highlight, unless it was through.
  unfoldable pub take_event : Option Event → Run H → Turn × Run H
  unfolding finish begin
  take_event none r = (finished, finish r)
  take_event (some e) r =
      let taken = record r { task = record (r.task) { position = r.task.position + 1 } } in
      if r.task.script && cancelled
      then (finished, finish r)
      else if cancelled
      then (finished, r)
      else (again, begin e.kind e taken)

  unfoldable pub next_event : Run H → Turn × Run H
  unfolding take_event
  next_event r = take_event (get_elem? r.task.events r.task.position) r

  -- One round of the loop, in a phase.
  unfoldable pub round_in : Phase → Run H → Turn × Run H
  unfolding try_press hold wait_idle sleep try_apply wait_host next_event
  round_in waiting_to_press r = try_press r
  round_in holding r = hold r
  round_in waiting_idle r = wait_idle r
  round_in sleeping r = sleep r
  round_in waiting_to_apply r = try_apply r
  round_in waiting_host r = wait_host r
  round_in next r = next_event r

  unfoldable pub round : Run H → Turn × Run H
  unfolding round_in
  round r = round_in r.task.phase r

  -- What follows a round.
  abbrev pub resumed : (Run H → Option (Turn × Run H)) → Turn × Run H → Option (Turn × Run H)
  resumed more (again, r) = more r
  resumed more (until t, r) = some (until t, r)
  resumed more (finished, r) = some (finished, r)

  -- The loop on fuel.
  unfoldable pub rounds : ℕ → Run H → Option (Turn × Run H)
  unfolding round
  rounds zero r = none
  rounds (suc n) r = resumed (rounds n) (round r)

  abbrev pub started : Run H → Run H
  started r = call playback_started (record r { playing = true })

  -- `m_playing` goes up when a script starts.
  unfoldable pub start : Run H → Run H
  start r = if is_next r.task.phase && r.task.script && (r.task.position == 0) then started r else r

  -- An event takes at most three rounds.
  unfoldable pub step_fuel : Run H → ℕ
  step_fuel r = 3 * (length r.task.events - r.task.position) + 3

  unfoldable pub step : Run H → Option (Turn × Run H)
  unfolding rounds start step_fuel
  step r = rounds (step_fuel r) (start r)
