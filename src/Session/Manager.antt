-- ===== src/Session/Manager.antt =====
-- crates/mlink-core/src/core/session/manager.rs: the table of the sessions, by the peer.
-- With `switch_active_link` of crates/mlink-core/src/core/connection.rs.
-- The `HashMap` is an association list; the random session id is an argument of `attach_link`.
-- A session stands in the table by value: the table's own operations are the only writers here.
pub mod Capacity
pub mod Reach
pub mod Hints
pub mod Lookup
pub mod Frame
mod Tests
use mlink.Prelude.{
  lookup, replace, delete, ℕ, ◌+◌, String, List, [], ◌∷◌, ◌++◌, Bool, true, false, not, ◌&&◌,
  Option, none, some, if◌then◌else◌, leb, ◌==◌, any, find, str_eq, length, map, retain,
}
use mlink.Link.{Link, TransportKind, ble, tcp, ipc, mock}
use mlink.Protocol.Errors.{Result, ok, err, no_healthy_link}
use mlink.Session.State.{
  switched, manual_user_request, Session, new_session, emit, link_added, link_removed,
  max_links_per_peer, LinkStatus, link_by_id,
}
use mlink.Session.Pick.{or_empty}
use mlink.Session.Send.{status}

-- The derived `PartialEq` of `TransportKind`.
abbrev pub kind_eq : TransportKind → TransportKind → Bool
kind_eq ble ble = true
kind_eq tcp tcp = true
kind_eq ipc ipc = true
kind_eq mock mock = true
kind_eq a b = false

abbrev pub bytes_eq : List ℕ → List ℕ → Bool
bytes_eq [] [] = true
bytes_eq (a ∷ xs) (b ∷ ys) = (a == b) && bytes_eq xs ys
bytes_eq xs ys = false

pub data AttachOutcome : Type 0 where
  created_new : List ℕ → AttachOutcome
  attached_existing rejected_duplicate_kind rejected_capacity rejected_session_mismatch :
      AttachOutcome

pub record SessionManager : Type 0 where
  pub peers : List (String × Session)

abbrev pub new_manager : SessionManager
new_manager = record { peers = [] }

unfoldable pub get : SessionManager → String → Option Session
get m peer_id = lookup peer_id m.peers

unfoldable pub contains_peer : SessionManager → String → Bool
contains_peer m peer_id = any (λ e. str_eq e.0 peer_id) m.peers

abbrev pub mismatch : Option (List ℕ) → List ℕ → Bool
mismatch none id = false
mismatch (some h) id = not (bytes_eq h id)

abbrev pub hinted : Option (List ℕ) → Bool
hinted none = false
hinted (some h) = true

-- A link for a session that is there.
unfoldable pub attach_existing : Session → String → Link → Option (List ℕ) → AttachOutcome × Session
attach_existing s peer_id link hint =
    if mismatch hint s.session_id
    then (rejected_session_mismatch, s)
    else if leb max_links_per_peer (length s.links)
    then (rejected_capacity, s)
    else if any (λ l. kind_eq l.kind link.kind) s.links
    then (rejected_duplicate_kind, s)
    else (
      attached_existing,
      emit (record s { links = s.links ++ (link ∷ []) }) (link_added peer_id link.id link.kind),
    )

-- The first link of a peer, which becomes the active one.
unfoldable pub first_session : String → List ℕ → Link → Session
unfolding new_session
first_session peer_id session_id link =
    emit (record (new_session peer_id session_id) { links = link ∷ []; active = some link.id })
      (link_added peer_id link.id link.kind)

abbrev attach_to :
    SessionManager
    → String
    → Link
    → Option (List ℕ)
    → List ℕ
    → Option Session
    → AttachOutcome × SessionManager
attach_to m peer_id link hint fresh (some s) =
    let (o, s') = attach_existing s peer_id link hint in
    (o, record { peers = replace peer_id s' m.peers })
attach_to m peer_id link hint fresh none = if hinted hint then (rejected_session_mismatch, m) else (
  created_new fresh,
  record { peers = (peer_id, first_session peer_id fresh link) ∷ m.peers },
)

unfoldable pub attach_link :
    SessionManager → String → Link → Option (List ℕ) → List ℕ → AttachOutcome × SessionManager
unfolding attach_existing first_session get
attach_link m peer_id link hint fresh = attach_to m peer_id link hint fresh (get m peer_id)

-- The links of the session that is returned are closed, on which the table does not depend.
unfoldable pub drop_peer : SessionManager → String → Option Session × SessionManager
unfolding get
drop_peer m peer_id = (get m peer_id, record { peers = delete peer_id m.peers })

-- `Vec::remove` at the first position of that name.
abbrev pub remove_link : String → List Link → List Link
remove_link id [] = []
remove_link id (l ∷ ls) = if str_eq l.id id then ls else l ∷ remove_link id ls

abbrev pub unless_active : String → Option String → Option String
unless_active id none = none
unless_active id (some a) = if str_eq a id then none else some a

unfoldable pub detach : Session → String → String → Session
detach s peer_id link_id =
    record (emit (record s { links = remove_link link_id s.links })
      (link_removed peer_id link_id "detach")) { active = unless_active link_id s.active }

abbrev is_empty : List Link → Bool
is_empty [] = true
is_empty (l ∷ ls) = false

abbrev detached : SessionManager → String → Session → Bool × SessionManager
detached m peer_id s =
    if is_empty s.links
    then (true, record { peers = delete peer_id m.peers })
    else (false, record { peers = replace peer_id s m.peers })

abbrev detach_from : SessionManager → String → String → Option Session → Bool × SessionManager
detach_from m peer_id link_id none = (false, m)
detach_from m peer_id link_id (some s) =
    if any (λ l. str_eq l.id link_id) s.links
    then detached m peer_id (detach s peer_id link_id)
    else (false, m)

unfoldable pub detach_link : SessionManager → String → String → Bool × SessionManager
unfolding get detach
detach_link m peer_id link_id = detach_from m peer_id link_id (get m peer_id)

unfoldable pub list_status : SessionManager → List (String × List LinkStatus)
unfolding status
list_status m = map (λ e. (e.0, status e.1)) m.peers

unfoldable pub peer_link_status : SessionManager → String → List LinkStatus
unfolding status get
peer_link_status m peer_id = elim (get m peer_id) [ none ↦ [] | some s ↦ status s ]

unfoldable pub peers : SessionManager → List String
peers m = map (λ e. e.0) m.peers

unfoldable pub count : SessionManager → ℕ
count m = length m.peers

abbrev pub is_now : Option String → String → Bool
is_now none id = false
is_now (some a) id = str_eq a id

-- crates/mlink-core/src/core/connection.rs: `ConnectionManager::switch_active_link`.
unfoldable pub switch_to : Session → String → String → Session
switch_to s peer_id link_id =
    let t : Session = record s { active = some link_id } in
    if is_now s.active link_id
    then t
    else emit t (switched peer_id (or_empty s.active) link_id manual_user_request)

abbrev switch_in :
    SessionManager → String → String → Option Session → Result (Unit {0}) × SessionManager
switch_in m peer_id link_id none = (err (no_healthy_link peer_id), m)
switch_in m peer_id link_id (some s) =
    if any (λ l. str_eq l.id link_id) s.links
    then (ok tt, record { peers = replace peer_id (switch_to s peer_id link_id) m.peers })
    else (err (no_healthy_link peer_id), m)

unfoldable pub switch_active_link :
    SessionManager → String → String → Result (Unit {0}) × SessionManager
unfolding get switch_to
switch_active_link m peer_id link_id = switch_in m peer_id link_id (get m peer_id)
