-- ===== src/Session/Recv.antt =====
-- crates/mlink-core/src/core/session/reader.rs: reading from all links of a session at once,
-- dropping duplicates, and acknowledging late.
-- `tokio::select!` picks one thing that happens: the deadline of the acknowledgements, bytes from a
-- link, or the failure of a link's read. The choice is the environment's: a list of `ReadEvent`s.
pub mod Pending
pub mod Frames
pub mod Delivery
pub mod OwnAck
pub mod Coverage
pub mod Calls
pub mod Dead
pub mod Unframed
mod Tests
use mlink.Prelude.{
  ℕ, ◌+◌, ◌-◌, ◌^◌, String, List, [], ◌∷◌, Bool, true, false, not, Option, none, some,
  if◌then◌else◌, ltb, leb, ◌==◌, min, any, str_eq, length, take, drop, from_be_bytes,
}
use mlink.Link.{Link, record_success, record_error}
use mlink.Protocol.Errors.{Result, ok, err, MlinkError, no_healthy_link}
use mlink.Protocol.Types.{
  MessageType, Frame, encode_flags, decode_flags, magic_number, protocol_version,
}
use mlink.Protocol.Frame.{encode_frame, decode_frame}
use mlink.Protocol.Seq.{Observation, observe, snapshot}
use mlink.Protocol.Ack.{AckFrame, encode_ack, decode_ack}
use mlink.Session.State.{
  Session, Env, SessionEvent, link_removed, AckPending, no_pending, ack_max_pending,
  ack_max_delay_ms, now, emit, link_by_id, link_send, update_link,
}
use mlink.Session.Send.{on_ack}

abbrev pub session_seq_header : ℕ
session_seq_header = 4

unfoldable pub ack_should_flush : AckPending → ℕ → Bool
ack_should_flush p at =
    if leb ack_max_pending p.count
    then true
    else (elim p.first_pending_at [ none ↦ false | some t ↦ leb ack_max_delay_ms (at - t) ])

abbrev pub ack_frame : AckFrame → Frame
ack_frame ack = record {
  magic = magic_number;
  version = protocol_version;
  flags = encode_flags false false MessageType.ack;
  seq = 0;
  length = length (encode_ack ack);
  payload = encode_ack ack;
}

unfoldable pub encode_ack_frame : AckFrame → List ℕ
encode_ack_frame ack = encode_frame (ack_frame ack)

-- One more frame waits for its acknowledgement, a saturating increment of a `u32`.
abbrev pub add_pending : AckPending → ℕ → AckPending
add_pending p at = record {
  count = min (p.count + 1) (2 ^ 32 - 1);
  first_pending_at = elim p.first_pending_at [ none ↦ some at | some t ↦ some t ];
}

abbrev pub active_link : Session → Option Link
active_link s = elim s.active [ none ↦ none | some id ↦ link_by_id s id ]

abbrev own_ack : Session → AckFrame
own_ack s = let (last, bits) = snapshot s.dedup in record { ack = last; bitmap = bits }

abbrev after_ack : Env → Result (Unit {0}) → Session → Result (Unit {0}) × Session
after_ack env (ok x) s = (ok tt, s)
after_ack env (err e) s = (err e, record s { ack_pending = add_pending s.ack_pending (now env s) })

abbrev send_ack : Env → Session → Option Link → Result (Unit {0}) × Session
send_ack env s none = (ok tt, s)
send_ack env s (some link) =
    let (r, s') = link_send env s link (encode_ack_frame (own_ack s)) in after_ack env r s'

unfoldable pub flush_ack_now : Env → Session → Result (Unit {0}) × Session
unfolding link_send link_by_id
flush_ack_now env s =
    if s.ack_pending.count == 0
    then (ok tt, s)
    else (let s' : Session = record s { ack_pending = no_pending } in
        send_ack env s' (active_link s'))

unfoldable pub maybe_flush_ack : Env → Session → Session
unfolding ack_should_flush flush_ack_now
maybe_flush_ack env s =
    if ack_should_flush s.ack_pending (now env s) then (flush_ack_now env s).1 else s

-- The deadline of the acknowledgements: 60 seconds from now if none waits.
unfoldable pub ack_deadline : Env → Session → ℕ
ack_deadline env s = elim s.ack_pending.first_pending_at [
  | none ↦ now env s + 60000
  | some t ↦ t + ack_max_delay_ms
]

abbrev flush_if_reached : Env → Session → Session
flush_if_reached env s =
    if leb ack_max_pending s.ack_pending.count then (flush_ack_now env s).1 else s

abbrev after_observe : Env → Session → ℕ → List ℕ → Observation → Option (ℕ × List ℕ) × Session
after_observe env s seq body Observation.accept =
    let s' : Session = record s { ack_pending = add_pending s.ack_pending (now env s) } in
    (some (seq, body), flush_if_reached env s')
after_observe env s seq body Observation.duplicate = (none, s)
after_observe env s seq body Observation.stale = (none, s)

unfoldable pub consume_message : Env → Session → Frame → Option (ℕ × List ℕ) × Session
unfolding flush_ack_now observe
consume_message env s frame =
    if ltb (length frame.payload) session_seq_header
    then (none, s)
    else (let seq = from_be_bytes (take 4 frame.payload) in
        let body = drop session_seq_header frame.payload in
        after_observe env (record s { dedup = (observe s.dedup seq).1 }) seq body
          (observe s.dedup seq).0)

pub data ReadOutcome : Type 0 where
  msg : ℕ → List ℕ → ReadOutcome
  continue : ReadOutcome
  all_links_gone : ReadOutcome

abbrev of_message : Option (ℕ × List ℕ) × Session → ReadOutcome × Session
of_message (none, s) = (continue, s)
of_message (some (seq, payload), s) = (msg seq payload, s)

abbrev acknowledged : Session → Result AckFrame → ReadOutcome × Session
acknowledged s (ok a) = (continue, on_ack s a)
acknowledged s (err e) = (continue, s)

abbrev by_type : Env → Session → Frame → MessageType → ReadOutcome × Session
by_type env s frame MessageType.ack = acknowledged s (decode_ack frame.payload)
by_type env s frame MessageType.message = of_message (consume_message env s frame)
by_type env s frame other = (continue, s)

abbrev by_frame : Env → Session → Result Frame → ReadOutcome × Session
by_frame env s (err e) = (continue, s)
by_frame env s (ok frame) =
    let (_, _, msg_type) = decode_flags frame.flags in by_type env s frame msg_type

unfoldable pub handle_bytes : Env → Session → List ℕ → ReadOutcome × Session
unfolding consume_message
handle_bytes env s bytes = by_frame env s (decode_frame bytes)

pub data ReadEvent : Type 0 where
  deadline : ReadEvent
  received : String → List ℕ → ReadEvent
  failed : String → MlinkError → ReadEvent

-- Time passes while the reader waits.
abbrev pub waited : Session → Session
waited s = record s { wire = record (s.wire) { calls = s.wire.calls + 1 } }

-- `Link::recv` records the outcome; a failure is announced, but the link stays in the session.
unfoldable pub read_any : Env → Session → ReadEvent → ReadOutcome × Session
unfolding handle_bytes
read_any env s deadline = (continue, waited s)
read_any env s (received id bytes) =
    let s1 = waited s in
    handle_bytes env
      (record s1 { links = update_link id (λ l. record_success l (now env s1)) s1.links }) bytes
read_any env s (failed id e) =
    let s1 = waited s in
    let s' : Session =
      emit (record s1 { links = update_link id record_error s1.links })
        (link_removed s1.peer_id id "recv_error") in
    if any (λ l. not (str_eq l.id id)) s'.links then (continue, s') else (all_links_gone, s')

abbrev no_links : List Link → Bool
no_links [] = true
no_links (l ∷ ls) = false

abbrev pub Answer : Type 0
Answer = Option (Result (ℕ × List ℕ)) × Session

-- What the loop of `recv` does with an outcome; `rest` is what the further rounds give.
abbrev settle : ReadOutcome → Session → Answer → Answer
settle (msg seq payload) s rest = (some (ok (seq, payload)), s)
settle continue s rest = rest
settle all_links_gone s rest = (some (err (no_healthy_link (s.peer_id))), s)

-- `none`: all events are used up, and the reader still waits.
unfoldable pub recv : Env → Session → List ReadEvent → Answer
unfolding read_any maybe_flush_ack
recv env s [] =
    if no_links s.links
    then (some (err (no_healthy_link (s.peer_id))), s)
    else (none, maybe_flush_ack env s)
recv env s (e ∷ es) =
    let s1 = maybe_flush_ack env s in
    let rest = recv env (read_any env s1 e).1 es in
    if no_links s.links
    then (some (err (no_healthy_link (s.peer_id))), s)
    else settle (read_any env s1 e).0 (read_any env s1 e).1 rest
