-- ===== src/Reconnect.antt =====
-- crates/mlink-core/src/core/reconnect.rs: when to try to reconnect, and the streams to resume.
-- Times and delays are in milliseconds; the clock comes in as `now`.
pub mod Schedule
mod Tests
use mlink.Prelude.{
  ℕ, ◌+◌, ◌-◌, ◌*◌, ◌^◌, List, [], ◌∷◌, map, Bool, true, false, Option, none, some, if◌then◌else◌,
  leb, ltb, ◌==◌, ◌&&◌, min,
}

abbrev pub foreground_max_delay : ℕ
foreground_max_delay = 60 * 1000

abbrev pub foreground_duration : ℕ
foreground_duration = 5 * 60 * 1000

abbrev pub background_interval : ℕ
background_interval = 120 * 1000

abbrev pub background_duration : ℕ
background_duration = 30 * 60 * 1000

pub data ReconnectMode : Type 0 where
  foreground background : ReconnectMode

pub record ReconnectState : Type 0 where
  pub mode : ReconnectMode
  pub attempt : ℕ
  pub started_at : ℕ
  pub last_attempt : Option ℕ

abbrev pub new_state : ℕ → ReconnectState
new_state now = record { mode = foreground; attempt = 0; started_at = now; last_attempt = none }

pub record ReconnectPolicy : Type 0 where
  pub state : ReconnectState
  pub background_started_at : Option ℕ

abbrev pub new_policy : ℕ → ReconnectPolicy
new_policy now = record { state = new_state now; background_started_at = none }

-- `1u64.checked_shl(n)` or the largest `u64`.
abbrev shifted : ℕ → ℕ
shifted n = if leb 64 n then 2 ^ 64 - 1 else 2 ^ n

abbrev pub foreground_delay : ℕ → ℕ
foreground_delay attempt =
    if attempt == 0 then 0 else min (shifted (attempt - 1) * 1000) foreground_max_delay

abbrev is_foreground : ReconnectMode → Bool
is_foreground foreground = true
is_foreground background = false

abbrev or_now : Option ℕ → ℕ → ℕ
or_now none now = now
or_now (some t) now = t

-- The change of mode, before the delay is computed.
unfoldable pub settle_mode : ReconnectPolicy → ℕ → ReconnectPolicy
settle_mode p now =
    if is_foreground p.state.mode && leb foreground_duration (now - p.state.started_at)
    then record {
      state = record (p.state) { mode = background; attempt = 0 };
      background_started_at = some now;
    }
    else p

unfoldable pub delay_of : ReconnectPolicy → ℕ → Option ℕ
delay_of p now = elim p.state.mode [
  | foreground ↦ some (foreground_delay p.state.attempt)
  | background ↦
      if leb background_duration (now - or_now p.background_started_at now)
      then none
      else some background_interval
]

abbrev counted : ReconnectPolicy → ℕ → Option ℕ → ReconnectPolicy
counted p now none = p
counted p now (some d) = record p {
  state = record (p.state) {
    attempt = min (p.state.attempt + 1) (2 ^ 32 - 1);
    last_attempt = some now;
  };
}

unfoldable pub next_delay : ReconnectPolicy → ℕ → Option ℕ × ReconnectPolicy
unfolding settle_mode delay_of
next_delay p now = let p' = settle_mode p now in (delay_of p' now, counted p' now (delay_of p' now))

unfoldable pub reset : ReconnectPolicy → ℕ → ReconnectPolicy
reset p now = new_policy now

pub record StreamProgress : Type 0 where
  pub stream_id : ℕ
  pub received_bitmap : List ℕ
  pub total_chunks : ℕ

pub record ReconnectManager : Type 0 where
  pub pending_streams : List (ℕ × StreamProgress)

abbrev put : ℕ → StreamProgress → List (ℕ × StreamProgress) → List (ℕ × StreamProgress)
put k v [] = (k, v) ∷ []
put k v ((j, u) ∷ m) = if j == k then (j, v) ∷ m else (j, u) ∷ put k v m

unfoldable pub record_stream_progress : ReconnectManager → StreamProgress → ReconnectManager
record_stream_progress m p = record { pending_streams = put p.stream_id p m.pending_streams }

unfoldable pub take_resume_streams : ReconnectManager → List StreamProgress × ReconnectManager
take_resume_streams m = (map (λ e. e.1) m.pending_streams, record { pending_streams = [] })
