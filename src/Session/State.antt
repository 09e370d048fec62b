-- ===== src/Session/State.antt =====
-- crates/mlink-core/src/core/session/types.rs: the state of a session, and the small helpers of
-- session/io.rs and session/reader.rs that read it.
-- `Arc<Link>` is shared with nobody but the session's own calls, so a link is kept by value in
-- `links` and written back by its name. `events` is the log of what the broadcast channel carried.
-- `wire` stands for the far side of the connections: how many calls were made (writes and waits for reads, between which the clock moves), and what was
-- written where.
use mlink.Prelude.{ℕ, ◌+◌, String, List, [], ◌∷◌, ◌++◌, Option, none, if◌then◌else◌, find, str_eq}
use mlink.Link.{Link, LinkHealth, TransportKind, after_io}
use mlink.Protocol.Errors.{Result, ok, err}
use mlink.Protocol.Types.{MessageType}
use mlink.Protocol.Seq.{SeqGen, DedupWindow, new_gen, new_window}
use mlink.Protocol.Ack.{UnackedRing, new_ring}

pub data LinkRole : Type 0 where
  active_role standby_role : LinkRole

pub record LinkStatus : Type 0 where
  pub link_id : String
  pub kind : TransportKind
  pub role : LinkRole
  pub health : LinkHealth

pub data SwitchCause : Type 0 where
  active_failed better_candidate manual_user_request : SwitchCause

pub data SessionEvent : Type 0 where
  link_added : String → String → TransportKind → SessionEvent
  link_removed : String → String → String → SessionEvent
  switched : String → String → String → SwitchCause → SessionEvent
  stream_progress : String → ℕ → ℕ → SessionEvent

pub record PendingFrame : Type 0 where
  pub bytes : List ℕ
  pub msg_type : MessageType

pub record SchedulerState : Type 0 where
  pub better_streak : List (String × ℕ)
  pub tick : ℕ

pub record AckPending : Type 0 where
  pub count : ℕ
  pub first_pending_at : Option ℕ

abbrev pub no_pending : AckPending
no_pending = record { count = 0; first_pending_at = none }

pub record Wire : Type 0 where
  pub calls : ℕ
  pub sent : List (String × List ℕ)

pub record Session : Type 0 where
  pub peer_id : String
  pub session_id : List ℕ
  pub links : List Link
  pub active : Option String
  pub send_seq : SeqGen
  pub dedup : DedupWindow
  pub unacked : UnackedRing PendingFrame
  pub events : List SessionEvent
  pub sched_state : SchedulerState
  pub ack_pending : AckPending
  pub wire : Wire

abbrev pub max_links_per_peer : ℕ
max_links_per_peer = 4

abbrev pub switchback_hysteresis : ℕ
switchback_hysteresis = 3

abbrev pub ack_max_delay_ms : ℕ
ack_max_delay_ms = 50

abbrev pub ack_max_pending : ℕ
ack_max_pending = 8

unfoldable pub new_session : String → List ℕ → Session
unfolding new_gen new_window
new_session peer_id session_id = record {
  peer_id = peer_id;
  session_id = session_id;
  links = [];
  active = none;
  send_seq = new_gen;
  dedup = new_window;
  unacked = new_ring;
  events = [];
  sched_state = record { better_streak = []; tick = 0 };
  ack_pending = no_pending;
  wire = record { calls = 0; sent = [] };
}

-- What the session's surroundings answer: the result of each write, by the number of the call;
-- the clock in milliseconds at that call; the compressor; the cipher under a key and a nonce.
pub record Env : Type 0 where
  pub outcome : ℕ → String → List ℕ → Result (Unit {0})
  pub clock : ℕ → ℕ
  pub zstd : List ℕ → Result (List ℕ)
  pub seal : List ℕ → List ℕ → List ℕ → Result (List ℕ)

abbrev pub now : Env → Session → ℕ
now env s = env.clock s.wire.calls

abbrev pub emit : Session → SessionEvent → Session
emit s e = record s { events = s.events ++ (e ∷ []) }

unfoldable pub link_by_id : Session → String → Option Link
link_by_id s id = find (λ l. str_eq l.id id) s.links

-- Replace the first link of that name.
abbrev pub update_link : String → (Link → Link) → List Link → List Link
update_link id f [] = []
update_link id f (l ∷ ls) = if str_eq l.id id then f l ∷ ls else l ∷ update_link id f ls

abbrev pub log_write : Result (Unit {0}) → String → List ℕ → Wire → Wire
log_write (ok _) id bytes w = record { calls = w.calls + 1; sent = w.sent ++ ((id, bytes) ∷ []) }
log_write (err e) id bytes w = record { calls = w.calls + 1; sent = w.sent }

-- `Link::send`.
unfoldable pub link_send : Env → Session → Link → List ℕ → Result (Unit {0}) × Session
unfolding after_io
link_send env s link bytes =
    let r = env.outcome s.wire.calls link.id bytes in
    (
      r,
      record s {
        links = update_link link.id (λ l. after_io l (now env s) r) s.links;
        wire = log_write r link.id bytes s.wire;
      },
    )
