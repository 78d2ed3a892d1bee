-- ===== src/Shared/KeySequencer/Keyboard.antt =====
-- Shared/KeySequencer.cpp: the physical keyboard with its deferred releases, and the sequencer of
-- the two lanes.
pub mod Laws
use calc_u.Base.{
  ℕ, zero, suc, ◌+◌, Bool, true, false, not, ◌&&◌, ◌||◌, if◌then◌else◌, leb, ltb, ◌==◌, List, [],
  ◌∷◌, ◌++◌, Option, none, some, length, map_some, ◌>>=◌, max,
}
use calc_u.Shared.Model.{PcRange}
use calc_u.Shared.KeySequencer.{
  Event, Kind, key, Host, Action, Task, new_task, press_key, release_key, held_key_changed,
  highlight_id, hold_time,
}
use calc_u.Shared.KeySequencer.Lane.{Lane, Laned, post, cancel}
use calc_u.Shared.KeySequencer.Lane

pub record Sequencer {ℓ} (H : Type ℓ) : Type ℓ where
  pub host : H
  pub playing : Bool
  pub now : ℕ
  pub held_code : Option ℕ
  pub held_since : ℕ
  -- times and codes
  pub releases : List (ℕ × ℕ)
  pub script : Lane
  pub keys : Lane

abbrev pub key_event : ℕ → Event
key_event code = record { kind = key; code = code; pause = 0; payload = 0 }

abbrev pub key_events : List ℕ → List Event
key_events [] = []
key_events (c ∷ cs) = key_event c ∷ key_events cs

-- The order of pairs.
abbrev pub pair_ltb : ℕ × ℕ → ℕ × ℕ → Bool
pair_ltb a b = ltb a.0 b.0 || (a.0 == b.0 && ltb a.1 b.1)

-- `std::min_element`: the first of the least, and the list without it.
unfoldable pub take_min : ℕ × ℕ → List (ℕ × ℕ) → (ℕ × ℕ) × List (ℕ × ℕ)
take_min x [] = (x, [])
take_min x (y ∷ ys) =
    let (m, rest) = take_min y ys in if pair_ltb m x then (m, x ∷ rest) else (x, y ∷ ys)

module _ {ℓ} {H : Type ℓ} (host : Host H) where
  abbrev call : Action → Sequencer H → Sequencer H
  call a s = record s { host = host.act s.now a s.host }

  unfoldable pub play : List Event → Sequencer H → Sequencer H
  unfolding post
  play events s = record s { script = post (new_task events true) s.script }

  unfoldable pub cancel_playback : Sequencer H → Sequencer H
  unfolding cancel
  cancel_playback s = record s { script = cancel s.script }

  abbrev pub release_at : ℕ → ℕ → Sequencer H → Sequencer H
  release_at code time s = record s { releases = s.releases ++ ((time, code) ∷ []) }

  abbrev let_go : Option ℕ → Sequencer H → Sequencer H
  let_go none s = s
  let_go (some code) s =
      let shown = call (held_key_changed none) (record s { held_code = none }) in
      let earliest = s.held_since + hold_time in
      if leb earliest s.now then call (release_key code) shown else release_at code earliest shown

  unfoldable pub key_up : Sequencer H → Sequencer H
  key_up s = let_go s.held_code s

  -- A single code goes down; several are taps of the keyboard's lane.
  unfoldable pub key_down : List ℕ → Sequencer H → Sequencer H
  unfolding key_up post cancel
  key_down [] s = s
  key_down (code ∷ []) s =
      let up = key_up s in
      call (press_key code) (
        call (held_key_changed (some (highlight_id code)))
          (record up { keys = cancel up.keys; held_code = some code; held_since = up.now }))
  key_down (code ∷ more ∷ codes) s =
      let up = key_up s in
      record up { keys = post (new_task (key_events (code ∷ more ∷ codes)) false) (cancel up.keys) }

  abbrev release_held : Option ℕ → Sequencer H → Sequencer H
  release_held none s = s
  release_held (some code) s = call (release_key code) s

  unfoldable pub release_all : Sequencer H → Sequencer H
  unfolding cancel
  release_all s =
      call (held_key_changed none)
        (release_held s.held_code (record s { keys = cancel s.keys; held_code = none }))

  -- One round: the least of the list is released if it is due.
  abbrev pub release_from : (Sequencer H → Sequencer H) → List (ℕ × ℕ) → Sequencer H → Sequencer H
  release_from more [] s = s
  release_from more (x ∷ xs) s =
      let (m, rest) = take_min x xs in
      let after = more (call (release_key m.1) (record s { releases = rest })) in
      if ltb s.now m.0 then s else after

  -- The releases that are due, on fuel: each round takes one off the list.
  unfoldable pub release_loop : ℕ → Sequencer H → Sequencer H
  release_loop zero s = s
  release_loop (suc n) s = release_from (release_loop n) s.releases s

  unfoldable pub release_due : Sequencer H → Sequencer H
  unfolding release_loop
  release_due s = release_loop (length s.releases) s

  abbrev laned : Lane → Sequencer H → Laned H
  laned l s = record { lane = l; host = s.host; playing = s.playing }

  -- The cooperative `advance`: releases, then the script, then the keyboard.
  unfoldable pub advance : PcRange → ℕ → Sequencer H → Option (Sequencer H)
  unfolding release_due Lane.advance
  advance loop time s = do
    due ← some (release_due (record s { now = max s.now time }))
    script ← Lane.advance host loop due.now (laned due.script due)
    keys ←
        Lane.advance host loop due.now
          (record { lane = due.keys; host = script.1.host; playing = script.1.playing })
    some (record due {
      host = keys.1.host;
      playing = keys.1.playing;
      script = script.1.lane;
      keys = keys.1.lane;
    })
