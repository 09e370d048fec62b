-- ===== src/Tracker.antt =====
-- crates/mlink-cli/src/conn_tracker.rs: which peers a command dials, has engaged or is connected to.
-- A `HashSet<String>` is a list of strings, a `HashMap<String, _>` an association list.
pub mod Retries
mod Tests
use mlink.Prelude.{
  ℕ, ◌+◌, String, List, [], ◌∷◌, Bool, true, false, not, Option, none, some, if◌then◌else◌, leb,
  str_eq, retain, lookup, insert, delete, member, add_member, drop_member,
}

abbrev pub max_retries : ℕ
max_retries = 3

pub data SkipReason : Type 0 where
  already_inbound already_engaged : SkipReason
  already_connected : String → SkipReason
  reached_max_retries : ℕ → SkipReason

pub record ConnTracker : Type 0 where
  pub engaged : List String
  pub inbound : List String
  pub connected : List String
  pub wire_to_app : List (String × String)
  pub attempts : List (String × ℕ)

abbrev pub new_tracker : ConnTracker
new_tracker = record { engaged = []; inbound = []; connected = []; wire_to_app = []; attempts = [] }

abbrev connected_app : ConnTracker → Option String → Option String
connected_app c none = none
connected_app c (some app) = if member app c.connected then some app else none

abbrev exhausted : Option ℕ → Option SkipReason
exhausted none = none
exhausted (some n) = if leb max_retries n then some (reached_max_retries n) else none

unfoldable pub should_skip_dial : ConnTracker → String → Option SkipReason
should_skip_dial c wire_id =
    if member wire_id c.inbound
    then some already_inbound
    else if member wire_id c.engaged
    then some already_engaged
    else (elim (connected_app c (lookup wire_id c.wire_to_app)) [
      | some app ↦ some (already_connected app)
      | none ↦ exhausted (lookup wire_id c.attempts)
    ])

abbrev pub or_zero : Option ℕ → ℕ
or_zero none = 0
or_zero (some n) = n

abbrev pub attempts_of : ConnTracker → String → ℕ
attempts_of c wire_id = or_zero (lookup wire_id c.attempts)

-- The entry is made with 0 also where no attempt is granted.
unfoldable pub bump_attempt : ConnTracker → String → Option ℕ × ConnTracker
bump_attempt c wire_id =
    let n = attempts_of c wire_id in
    if leb max_retries n then (none, record c { attempts = insert wire_id n c.attempts }) else (
      some (n + 1),
      record c {
        attempts = insert wire_id (n + 1) c.attempts;
        engaged = add_member wire_id c.engaged;
      },
    )

unfoldable pub on_dial_ok : ConnTracker → String → String → ConnTracker
on_dial_ok c wire_id app_uuid = record c {
  attempts = delete wire_id c.attempts;
  wire_to_app = insert wire_id app_uuid c.wire_to_app;
  connected = add_member app_uuid c.connected;
}

unfoldable pub on_dial_err : ConnTracker → String → ConnTracker
on_dial_err c wire_id = record c { engaged = drop_member wire_id c.engaged }

unfoldable pub mark_room_mismatch_dial : ConnTracker → String → ConnTracker
mark_room_mismatch_dial c wire_id = record c {
  attempts = insert wire_id max_retries c.attempts;
  engaged = drop_member wire_id c.engaged;
}

unfoldable pub on_accept_begin : ConnTracker → String → ConnTracker
on_accept_begin c wire_id = record c {
  engaged = add_member wire_id c.engaged;
  inbound = add_member wire_id c.inbound;
}

unfoldable pub on_accept_ok : ConnTracker → String → String → ConnTracker
on_accept_ok c wire_id app_uuid = record c {
  attempts = delete wire_id c.attempts;
  wire_to_app = insert wire_id app_uuid c.wire_to_app;
  connected = add_member app_uuid c.connected;
}

unfoldable pub on_accept_err : ConnTracker → String → ConnTracker
on_accept_err c wire_id = record c {
  engaged = drop_member wire_id c.engaged;
  inbound = drop_member wire_id c.inbound;
}

unfoldable pub on_peer_connected : ConnTracker → String → ConnTracker
on_peer_connected c app_uuid = record c { connected = add_member app_uuid c.connected }

unfoldable pub on_peer_disconnected : ConnTracker → String → ConnTracker
on_peer_disconnected c app_uuid = record c {
  connected = drop_member app_uuid c.connected;
  wire_to_app = retain (λ e. not (str_eq e.1 app_uuid)) c.wire_to_app;
}
