-- ===== src/Session/Send.antt =====
-- crates/mlink-core/src/core/session/io.rs: the send path of a session;
-- and `encrypt` of crates/mlink-core/src/core/security.rs, with the cipher as `Env.seal`.
pub mod Body
pub mod Outcomes
pub mod Keeps
pub mod Delivers
pub mod Acks
mod Tests
use mlink.Prelude.{
  ℕ, zero, suc, ◌+◌, ◌-◌, ◌%◌, ◌^◌, ◌<◌, String, List, [], ◌∷◌, ◌++◌, Bool, true, false, not,
  Option, none, some, if◌then◌else◌, ltb, leb, ◌==◌, ◌&&◌, min, find, retain, str_eq, length,
  to_be_bytes, map,
}
use mlink.Prelude.Int.{ℤ, leb_ℤ}
use mlink.Link.{Link, LinkHealth, TransportKind, score, is_healthy}
use mlink.Protocol.Errors.{
  Result, ok, err, MlinkError, no_healthy_link, payload_too_large, security_error, aes_key_length,
  ◌>>=◌,
}
use mlink.Protocol.Types.{MessageType, Frame, encode_flags, magic_number, protocol_version}
use mlink.Protocol.Frame.{encode_frame}
use mlink.Protocol.Seq.{next_seq}
use mlink.Protocol.Ack.{AckFrame, push, ack_cum, sack, unacked_since}
use mlink.Session.Pick.{
  or_empty, better, max_by_score, eligible, id_of, best_excluding, pick_best, pin, pick, healthy_or,
  current_or_pick, promote, promote_on_failure, remove_streak, bump_streak, streak,
  should_switchback,
}
use mlink.Session.State.{
  Session, Env, SessionEvent, switched, SwitchCause, active_failed, LinkStatus, LinkRole,
  active_role, standby_role, PendingFrame, SchedulerState, now, emit, link_by_id, link_send,
  switchback_hysteresis,
}

abbrev compress_threshold : ℕ
compress_threshold = 256

-- crates/mlink-core/src/protocol/compress.rs
unfoldable pub should_compress : List ℕ → Bool
should_compress bytes = leb compress_threshold (length bytes)

abbrev zeros : ℕ → List ℕ
zeros zero = []
zeros (suc n) = 0 ∷ zeros n

-- Twelve bytes, the last two of them the number.
unfoldable pub seq_nonce : ℕ → List ℕ
seq_nonce seq = zeros 10 ++ to_be_bytes 2 seq

unfoldable pub encrypt : Env → List ℕ → List ℕ → ℕ → Result (List ℕ)
unfolding seq_nonce
encrypt env bytes key seq =
    if length key == 32
    then env.seal key (seq_nonce seq) bytes
    else err (security_error (aes_key_length (length key)))

abbrev pub compress_body : Env → Bool → List ℕ → Result (List ℕ × Bool)
compress_body env compress body =
    if compress && should_compress body
    then (env.zstd body >>= λ b. ok (b, true))
    else ok (body, false)

abbrev pub encrypt_body : Env → Option (List ℕ) → ℕ → List ℕ → Result (List ℕ × Bool)
encrypt_body env none seq body = ok (body, false)
encrypt_body env (some k) seq body = encrypt env body k (seq % 2 ^ 16) >>= λ b. ok (b, true)

abbrev pub frame_of : ℕ → MessageType → List ℕ → Bool → Bool → Frame
frame_of seq msg_type body compressed encrypted = record {
  magic = magic_number;
  version = protocol_version;
  flags = encode_flags compressed encrypted msg_type;
  seq = seq % 2 ^ 16;
  length = length body;
  payload = body;
}

-- The bytes of the frame that carries a payload: compressed, then encrypted, then measured.
unfoldable pub build : Env → ℕ → MessageType → List ℕ → Option (List ℕ) → Bool → Result (List ℕ)
unfolding should_compress encrypt
build env seq msg_type payload encrypt_key compress = do
  (b1, compressed) ← compress_body env compress payload
  (b2, encrypted) ← encrypt_body env encrypt_key seq b1
  if ltb (2 ^ 16 - 1) (length b2)
      then err (payload_too_large (length b2) (2 ^ 16 - 1))
      else ok (encode_frame (frame_of seq msg_type b2 compressed encrypted))

unfoldable pub record_unacked : Session → ℕ → List ℕ → MessageType → Session
record_unacked s seq bytes msg_type = record s {
  unacked = (push s.unacked seq (record { bytes = bytes; msg_type = msg_type })).1;
}

abbrev no_healthy : Session → MlinkError
no_healthy s = no_healthy_link (s.peer_id)

-- The write over the promoted link, the last attempt.
abbrev retried : Session → ℕ → List ℕ → MessageType → Result (Unit {0}) → Result ℕ × Session
retried s seq bytes msg_type (ok _) = (ok seq, record_unacked s seq bytes msg_type)
retried s seq bytes msg_type (err e) = (err (no_healthy s), s)

abbrev retry_over : Env → Session → ℕ → List ℕ → MessageType → Option Link → Result ℕ × Session
retry_over env s seq bytes msg_type none = (err (no_healthy s), s)
retry_over env s seq bytes msg_type (some l) =
    let (r, s') = link_send env s l bytes in retried s' seq bytes msg_type r

abbrev fail_over : Env → Session → ℕ → List ℕ → MessageType → Option String → Result ℕ × Session
fail_over env s seq bytes msg_type none = (err (no_healthy s), s)
fail_over env s seq bytes msg_type (some id) = retry_over env s seq bytes msg_type (link_by_id s id)

abbrev tried :
    Env → Session → String → ℕ → List ℕ → MessageType → Result (Unit {0}) → Result ℕ × Session
tried env s primary seq bytes msg_type (ok _) = (ok seq, record_unacked s seq bytes msg_type)
tried env s primary seq bytes msg_type (err e) =
    let (next, s') = promote_on_failure env s primary in fail_over env s' seq bytes msg_type next

abbrev over_primary : Env → Session → ℕ → List ℕ → MessageType → Option Link → Result ℕ × Session
over_primary env s seq bytes msg_type none = (err (no_healthy s), s)
over_primary env s seq bytes msg_type (some l) =
    let (r, s') = link_send env s l bytes in tried env s' l.id seq bytes msg_type r

-- The frame's bytes on their way: the current link, and one other if its write fails.
unfoldable pub transmit : Env → Session → ℕ → List ℕ → MessageType → Result ℕ × Session
unfolding current_or_pick promote_on_failure record_unacked link_send link_by_id
transmit env s seq bytes msg_type =
    let (primary, s') = current_or_pick env s in over_primary env s' seq bytes msg_type primary

abbrev dispatch : Env → Session → ℕ → MessageType → Result (List ℕ) → Result ℕ × Session
dispatch env s seq msg_type (err e) = (err e, s)
dispatch env s seq msg_type (ok bytes) = transmit env s seq bytes msg_type

-- The number is taken before anything else, and stays taken on every error.
unfoldable pub send :
    Env → Session → MessageType → List ℕ → Option (List ℕ) → Bool → Result ℕ × Session
unfolding next_seq build
send env s msg_type payload encrypt_key compress =
    let (seq, gen) = next_seq s.send_seq in
    dispatch env (record s { send_seq = gen }) seq msg_type
      (build env seq msg_type payload encrypt_key compress)

unfoldable pub on_ack : Session → AckFrame → Session
unfolding ack_cum sack
on_ack s a = record s { unacked = sack (ack_cum s.unacked a.ack) a.ack a.bitmap }

-- The loop of `flush_unacked_over`: it ends at the first write that fails.
flush_items : Env → Session → Link → List (ℕ × PendingFrame) → Result (Unit {0}) × Session
flush_items env s link [] = (ok tt, s)
flush_items env s link ((seq, pf) ∷ items) =
    let (r, s') = link_send env s link pf.bytes in
    let rest = flush_items env s' link items in elim r [ ok _ ↦ rest | err e ↦ (err e, s') ]

abbrev flush_over : Env → Session → Option Link → Result (Unit {0}) × Session
flush_over env s none = (err (no_healthy s), s)
flush_over env s (some link) = flush_items env s link (unacked_since s.unacked 0)

unfoldable pub flush_unacked_over : Env → Session → String → Result (Unit {0}) × Session
unfolding flush_items link_by_id unacked_since link_send
flush_unacked_over env s link_id = flush_over env s (link_by_id s link_id)

abbrev pub role_of : Option String → Link → LinkRole
role_of none l = standby_role
role_of (some a) l = if str_eq a l.id then active_role else standby_role

unfoldable pub status : Session → List LinkStatus
status s =
    map
      (λ l. record { link_id = l.id; kind = l.kind; role = role_of s.active l; health = l.health })
      s.links
