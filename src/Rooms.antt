-- ===== src/Rooms.antt =====
-- crates/mlink-core/src/core/room.rs: the rooms that a node has joined, and their peers.
-- The HMAC of the room's code is the argument `room_hash`; the clock comes in as `now`.
use mlink.Prelude.{
  ℕ, String, List, [], Bool, true, false, Option, none, some, map, lookup, replace, insert, delete,
  add_member, drop_member,
}

pub record RoomState : Type 0 where
  pub code : String
  pub hash : List ℕ
  pub joined_at : ℕ
  pub peers : List String

pub record RoomManager : Type 0 where
  pub rooms : List (String × RoomState)

abbrev pub new_rooms : RoomManager
new_rooms = record { rooms = [] }

-- A second join of a room forgets its peers.
unfoldable pub join : (String → List ℕ) → RoomManager → String → ℕ → RoomState × RoomManager
join room_hash m code now =
    let state : RoomState = record {
      code = code;
      hash = room_hash code;
      joined_at = now;
      peers = [];
    } in
    (state, record { rooms = insert code state m.rooms })

unfoldable pub leave : RoomManager → String → Option RoomState × RoomManager
leave m code = (lookup code m.rooms, record { rooms = delete code m.rooms })

unfoldable pub list : RoomManager → List RoomState
list m = map (λ e. e.1) m.rooms

abbrev peers_in : Option RoomState → List String
peers_in none = []
peers_in (some r) = r.peers

unfoldable pub room_peers : RoomManager → String → List String
room_peers m code = peers_in (lookup code m.rooms)

abbrev is_there : Option RoomState → Bool
is_there none = false
is_there (some r) = true

unfoldable pub is_joined : RoomManager → String → Bool
is_joined m code = is_there (lookup code m.rooms)

unfoldable pub active_hashes : RoomManager → List (List ℕ)
active_hashes m = map (λ e. e.1.hash) m.rooms

-- A change of the peers of a room that is joined.
abbrev with_peers :
    (List String → List String) → RoomManager → String → Option RoomState → RoomManager
with_peers f m code none = m
with_peers f m code (some r) = record {
  rooms = replace code (record r { peers = f r.peers }) m.rooms;
}

unfoldable pub add_peer : RoomManager → String → String → RoomManager
add_peer m code peer_id = with_peers (λ ps. add_member peer_id ps) m code (lookup code m.rooms)

unfoldable pub remove_peer : RoomManager → String → String → RoomManager
remove_peer m code peer_id = with_peers (λ ps. drop_member peer_id ps) m code (lookup code m.rooms)
