-- ===== src/Session/Manager/Tests.antt =====
-- A table with one peer: crates/mlink-core/src/core/session/manager.rs.
use mlink.Prelude.{◌≡◌, refl, List, [], ◌∷◌, none, some}
use mlink.Link.Samples.{wifi, radio}
use mlink.Session.Manager.{SessionManager, new_manager, attach_link, get}
use mlink.Session.Manager.Reach.{
  Operation, attach, detach_one, drop_whole, switch_active, operate, operate_all, IsTable,
  reached-IsTable,
}
use mlink.Session.Manager.Lookup.{Attached, attach_link-Attached}
use mlink.Session.Manager.Frame.{get-operate}

abbrev busy : List Operation
busy =
    attach "peer" wifi none (1 ∷ 2 ∷ [])
    ∷ attach "peer" radio (some (1 ∷ 2 ∷ [])) []
    ∷ attach "peer" radio none []
    ∷ switch_active "peer" "ble:1"
    ∷ detach_one "peer" "tcp:1"
    ∷ attach "other" wifi none (3 ∷ [])
    ∷ drop_whole "nobody"
    ∷ []

abbrev table : SessionManager
table = operate_all new_manager busy

reached-IsTable_example : IsTable table.peers
reached-IsTable_example = reached-IsTable busy

attach_link-Attached_example :
    Attached table "peer" wifi (some (9 ∷ [])) [] (attach_link table "peer" wifi (some (9 ∷ [])) [])
attach_link-Attached_example = attach_link-Attached table "peer" wifi (some (9 ∷ [])) []

get-operate_example : get (operate table (detach_one "peer" "ble:1")) "other" ≡ get table "other"
get-operate_example = get-operate table (detach_one "peer" "ble:1") "other" refl
