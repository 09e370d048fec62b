-- ===== src/Tracker/Tests.antt =====
-- A peer whose dials fail: crates/mlink-cli/src/conn_tracker.rs.
use mlink.Prelude.{◌≤◌, List, [], ◌∷◌}
use mlink.Tracker.{new_tracker, max_retries}
use mlink.Tracker.Retries.{Step, bump, dial_err, dial_ok, dials, dials-le-max_retries}

abbrev history : List Step
history =
    bump "w"
    ∷ dial_err "w"
    ∷ bump "w"
    ∷ dial_ok "w" "a"
    ∷ bump "w"
    ∷ dial_err "w"
    ∷ bump "w"
    ∷ bump "w"
    ∷ bump "w"
    ∷ []

dials-le-max_retries_example : dials "w" new_tracker 0 history ≤ max_retries
dials-le-max_retries_example = dials-le-max_retries "w" history
