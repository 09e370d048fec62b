-- ===== src/Connection.antt =====
-- crates/mlink-core/src/core/connection.rs: who dials, the map of connections by the peer, and the
-- calls of its compat shell that go to the table of sessions.
-- A connection in the map is a number, the name of the shared object.
pub mod Roles
pub mod Handshake
mod Tests
mod ShortName
use mlink.Prelude.{
  ℕ, String, List, [], Bool, true, false, Option, none, some, map, length, lookup, insert, delete,
}
use Prim.Native.Nat.{Ordering}
use Prim.Native.String.{compare, ◌++◌ as append}
use mlink.Connection.ShortName.{short_peer}
use mlink.Link.{Link, TransportKind, TransportCapabilities, new_link, as_wire}
use mlink.Session.State.{Session}
use mlink.Session.Manager.{SessionManager, AttachOutcome, attach_link, drop_peer, new_manager}

pub data Role : Type 0 where
  central peripheral : Role

abbrev pub role_by : Ordering → Role
role_by Ordering.lt = central
role_by Ordering.eq = peripheral
role_by Ordering.gt = peripheral

unfoldable pub negotiate_role : String → String → Role
negotiate_role my_uuid peer_uuid = role_by (compare my_uuid peer_uuid)

pub record ConnectionManager : Type 0 where
  pub conns : List (String × ℕ)
  pub sessions : SessionManager

abbrev pub new_connections : ConnectionManager
new_connections = record { conns = []; sessions = new_manager }

unfoldable pub with_sessions : SessionManager → ConnectionManager
with_sessions sessions = record { conns = []; sessions = sessions }

unfoldable pub add : ConnectionManager → String → ℕ → ConnectionManager
add m id conn = record m { conns = insert id conn m.conns }

unfoldable pub remove : ConnectionManager → String → Option ℕ × ConnectionManager
remove m id = (lookup id m.conns, record m { conns = delete id m.conns })

unfoldable pub shared : ConnectionManager → String → Option ℕ
shared m id = lookup id m.conns

abbrev is_there : Option ℕ → Bool
is_there none = false
is_there (some c) = true

unfoldable pub contains : ConnectionManager → String → Bool
contains m id = is_there (lookup id m.conns)

unfoldable pub list_ids : ConnectionManager → List String
list_ids m = map (λ e. e.0) m.conns

unfoldable pub count : ConnectionManager → ℕ
count m = length m.conns

unfoldable pub attach_link_async :
    ConnectionManager
    → String
    → TransportKind
    → TransportCapabilities
    → ℕ
    → List ℕ
    → AttachOutcome × ConnectionManager
unfolding short_peer as_wire new_link attach_link
attach_link_async m id kind caps now fresh =
    let link_id = append (as_wire kind) (append ":" (append (short_peer id) ":0")) in
    let (outcome, sessions) =
      attach_link m.sessions id (new_link link_id kind caps now) none fresh in
    (outcome, record m { sessions = sessions })

unfoldable pub attach_secondary_link :
    ConnectionManager → String → Link → Option (List ℕ) → List ℕ → AttachOutcome × ConnectionManager
unfolding attach_link
attach_secondary_link m peer_id link hint fresh =
    let (outcome, sessions) = attach_link m.sessions peer_id link hint fresh in
    (outcome, record m { sessions = sessions })

unfoldable pub drop_peer_async : ConnectionManager → String → ConnectionManager
unfolding drop_peer
drop_peer_async m peer_id = record m { sessions = (drop_peer m.sessions peer_id).1 }
