-- ===== src/Reconnect/Tests.antt =====
-- A policy over a few attempts: crates/mlink-core/src/core/reconnect.rs.
use mlink.Prelude.{◌-◌, ◌≡◌, arith, [], ◌∷◌, none, some, if◌then◌else◌, leb}
use mlink.Reconnect.{new_policy, next_delay, background_interval, background_duration}
use mlink.Reconnect.Schedule.{ask_all, background_schedule}

background_schedule_example :
    ((next_delay (ask_all (new_policy 10) (20 ∷ [])) 400000).0 ≡ some background_interval)
    × ((next_delay
          (ask_all (next_delay (ask_all (new_policy 10) (20 ∷ [])) 400000).1 (500000 ∷ []))
          2300000).0
        ≡ (if leb background_duration (2300000 - 400000) then none else some background_interval))
background_schedule_example =
    background_schedule 10 (20 ∷ []) 400000 (500000 ∷ []) 2300000 (ground arith) (omega arith)
