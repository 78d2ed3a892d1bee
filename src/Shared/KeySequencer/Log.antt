-- ===== src/Shared/KeySequencer/Log.antt =====
-- The log of a host's calls, and what it means that keys were played one at a time.
use calc_u.Base.{ℕ, ◌+◌, ◌≤◌, ◌≡◌, Bool, true, false, List, [], ◌∷◌, Option, none, some}
use calc_u.Shared.KeySequencer.{hold_time, press_key, release_key}
use calc_u.Shared.KeySequencer.{
  held_key_changed, set_full_speed, scripted_trace, zero_elapse, report_elapse, apply_reload,
  queue_card, control, playback_started, playback_finished,
}
use calc_u.Shared.KeySequencer.{Action, Phase, holding}

-- The calls with their times, the last first.
abbrev pub Log : Type 0
Log = List (ℕ × Action)

-- The key that is down after some calls, and since when.
abbrev pub down : Log → Option (ℕ × ℕ)
down [] = none
down ((t, press_key c) ∷ l) = some (c, t)
down ((t, release_key c) ∷ l) = none
down ((t, held_key_changed o) ∷ l) = down l
down ((t, set_full_speed b) ∷ l) = down l
down ((t, scripted_trace e) ∷ l) = down l
down ((t, zero_elapse) ∷ l) = down l
down ((t, report_elapse) ∷ l) = down l
down ((t, apply_reload e) ∷ l) = down l
down ((t, queue_card e) ∷ l) = down l
down ((t, control e) ∷ l) = down l
down ((t, playback_started) ∷ l) = down l
down ((t, playback_finished) ∷ l) = down l

-- A key goes down only while none is, and comes up, the same one, at least 100 ms later.
abbrev pub IsPlayed : Log → Type 0
IsPlayed [] = 0 ≤ 0
IsPlayed ((t, press_key c) ∷ l) = (down l ≡ none) × IsPlayed l
IsPlayed ((t, release_key c) ∷ l) =
    ((since : ℕ) × (down l ≡ some (c, since)) × (since + hold_time ≤ t)) × IsPlayed l
IsPlayed ((t, held_key_changed o) ∷ l) = IsPlayed l
IsPlayed ((t, set_full_speed b) ∷ l) = IsPlayed l
IsPlayed ((t, scripted_trace e) ∷ l) = IsPlayed l
IsPlayed ((t, zero_elapse) ∷ l) = IsPlayed l
IsPlayed ((t, report_elapse) ∷ l) = IsPlayed l
IsPlayed ((t, apply_reload e) ∷ l) = IsPlayed l
IsPlayed ((t, queue_card e) ∷ l) = IsPlayed l
IsPlayed ((t, control e) ∷ l) = IsPlayed l
IsPlayed ((t, playback_started) ∷ l) = IsPlayed l
IsPlayed ((t, playback_finished) ∷ l) = IsPlayed l

abbrev pub is_holding : Phase → Bool
is_holding holding = true
is_holding _ = false

-- The key that is down in a phase.
abbrev pub Fits : Bool → ℕ → ℕ → Option (ℕ × ℕ) → Type 0
Fits true code wake d = (since : ℕ) × (d ≡ some (code, since)) × (wake ≡ since + hold_time)
Fits false code wake d = d ≡ none
