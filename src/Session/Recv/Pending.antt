-- ===== src/Session/Recv/Pending.antt =====
-- The counter of the messages that wait for their acknowledgement, and its time.
use mlink.Prelude.{
  ℕ, ◌<◌, ◌≡◌, refl, arith, List, [], ◌∷◌, Bool, true, false, Option, none, some, leb, ◌==◌,
  if◌then◌else◌, Bool-cases, inl, inr, ltb, length, from_be_bytes, take, drop,
}
use mlink.Link.{Link, record_success}
use mlink.Protocol.Errors.{Result, ok, err}
use mlink.Protocol.Types.{Frame, MessageType, decode_flags}
use mlink.Protocol.Frame.{decode_frame}
use mlink.Protocol.Seq.{Observation, observe}
use mlink.Protocol.Ack.{AckFrame, decode_ack}
use mlink.Session.State.{
  Session, Env, AckPending, no_pending, ack_max_pending, link_send, now, update_link,
}
use mlink.Session.Send.{on_ack}
use mlink.Session.Recv.{
  add_pending, active_link, send_ack, after_ack, flush_ack_now, maybe_flush_ack, ack_should_flush,
  flush_if_reached, after_observe, consume_message, of_message, acknowledged, by_type, by_frame,
  handle_bytes, ReadEvent, deadline, received, failed, read_any, recv, encode_ack_frame, own_ack,
  ReadOutcome, msg, continue, all_links_gone, no_links, settle, waited, Answer, session_seq_header,
}

abbrev waits : Option ℕ → Bool
waits none = false
waits (some t) = true

-- The time of the first one is kept exactly while one waits.
abbrev IsTimed : AckPending → Type 0
IsTimed p = (p.count == 0) ≡ (if waits p.first_pending_at then false else true)

pub record IsPending (p : AckPending) : Type 0 where
  pub count_lt : p.count < ack_max_pending
  pub timed : IsTimed p

pending-link_send :
    (env : Env) (s : Session) (l : Link) (bytes : List ℕ)
    → (link_send env s l bytes).1.ack_pending ≡ s.ack_pending
unfolding link_send
pending-link_send env s l bytes = refl

pub none-IsPending : IsPending no_pending
none-IsPending = record { count_lt = omega arith; timed = refl }

after_ack-IsPending :
    (env : Env) (r : Result (Unit {0})) (s : Session)
    → s.ack_pending ≡ no_pending
    → IsPending (after_ack env r s).1.ack_pending
after_ack-IsPending env (ok x) s h = rw h none-IsPending
after_ack-IsPending env (err e) s h =
    rw h (record { count_lt = ground arith; timed = ground arith })

send_ack-IsPending :
    (env : Env) (s : Session) (o : Option Link)
    → s.ack_pending ≡ no_pending
    → IsPending (send_ack env s o).1.ack_pending
send_ack-IsPending env s none h = rw h none-IsPending
send_ack-IsPending env s (some l) h =
    let (r, s') = link_send env s l (encode_ack_frame (own_ack s)) in
    after_ack-IsPending env r s' (rw (pending-link_send env s l (encode_ack_frame (own_ack s))) h)

-- However many wait, few do after a flush.
flush_ack_now-IsPending :
    (env : Env) (s : Session)
    → IsTimed s.ack_pending
    → IsPending (flush_ack_now env s).1.ack_pending
unfolding flush_ack_now
flush_ack_now-IsPending env s h = elim (Bool-cases (s.ack_pending.count == 0)) [
  | inl e ↦ rw e (record { count_lt = ground arith; timed = h })
  | inr e ↦ rw e (
      send_ack-IsPending env (record s { ack_pending = no_pending })
        (active_link (record s { ack_pending = no_pending })) refl)
]

maybe_flush_ack-IsPending :
    (env : Env) (s : Session)
    → IsPending s.ack_pending
    → IsPending (maybe_flush_ack env s).ack_pending
unfolding maybe_flush_ack
maybe_flush_ack-IsPending env s h = elim (Bool-cases (ack_should_flush s.ack_pending (now env s))) [
  | inl e ↦ rw e (flush_ack_now-IsPending env s h.timed)
  | inr e ↦ rw e h
]

flush_if_reached-IsPending :
    (env : Env) (s : Session)
    → IsTimed s.ack_pending
    → IsPending (flush_if_reached env s).ack_pending
flush_if_reached-IsPending env s h = elim (Bool-cases (leb ack_max_pending s.ack_pending.count)) [
  | inl e ↦ rw e (flush_ack_now-IsPending env s h)
  | inr e ↦ rw e (record { count_lt = ground arith; timed = h })
]

add_pending-IsTimed : (p : AckPending) (t : ℕ) → IsTimed (add_pending p t)
add_pending-IsTimed p t = ground arith

after_observe-IsPending :
    (env : Env) (s : Session) (seq : ℕ) (body : List ℕ) (o : Observation)
    → IsPending s.ack_pending
    → IsPending (after_observe env s seq body o).1.ack_pending
after_observe-IsPending env s seq body Observation.accept h =
    flush_if_reached-IsPending env
      (record s { ack_pending = add_pending s.ack_pending (now env s) })
      (add_pending-IsTimed s.ack_pending (now env s))
after_observe-IsPending env s seq body Observation.duplicate h = h
after_observe-IsPending env s seq body Observation.stale h = h

consume_message-IsPending :
    (env : Env) (s : Session) (frame : Frame)
    → IsPending s.ack_pending
    → IsPending (consume_message env s frame).1.ack_pending
unfolding consume_message
consume_message-IsPending env s frame h =
    elim (Bool-cases (ltb (length frame.payload) session_seq_header)) [
      | inl e ↦ rw e h
      | inr e ↦
          let seq = from_be_bytes (take 4 frame.payload) in
          rw e (
            after_observe-IsPending env (record s { dedup = (observe s.dedup seq).1 }) seq
              (drop session_seq_header frame.payload) (observe s.dedup seq).0 h)
    ]

of_message-session : (r : Option (ℕ × List ℕ) × Session) → (of_message r).1 ≡ r.1
of_message-session (none, s) = refl
of_message-session (some (seq, payload), s) = refl

pending-on_ack : (s : Session) (a : AckFrame) → (on_ack s a).ack_pending ≡ s.ack_pending
unfolding on_ack
pending-on_ack s a = refl

acknowledged-IsPending :
    (s : Session) (r : Result AckFrame)
    → IsPending s.ack_pending
    → IsPending (acknowledged s r).1.ack_pending
acknowledged-IsPending s (ok a) h = rw (pending-on_ack s a) h
acknowledged-IsPending s (err e) h = h

by_type-IsPending :
    (env : Env) (s : Session) (frame : Frame) (t : MessageType)
    → IsPending s.ack_pending
    → IsPending (by_type env s frame t).1.ack_pending
by_type-IsPending env s frame MessageType.ack h =
    acknowledged-IsPending s (decode_ack frame.payload) h
by_type-IsPending env s frame MessageType.message h =
    rw (of_message-session (consume_message env s frame)) (consume_message-IsPending env s frame h)
by_type-IsPending env s frame other h = h

by_frame-IsPending :
    (env : Env) (s : Session) (r : Result Frame)
    → IsPending s.ack_pending
    → IsPending (by_frame env s r).1.ack_pending
by_frame-IsPending env s (err e) h = h
by_frame-IsPending env s (ok frame) h =
    let (c, e, t) = decode_flags frame.flags in by_type-IsPending env s frame t h

handle_bytes-IsPending :
    (env : Env) (s : Session) (bytes : List ℕ)
    → IsPending s.ack_pending
    → IsPending (handle_bytes env s bytes).1.ack_pending
unfolding handle_bytes
handle_bytes-IsPending env s bytes h = by_frame-IsPending env s (decode_frame bytes) h

read_any-IsPending :
    (env : Env) (s : Session) (e : ReadEvent)
    → IsPending s.ack_pending
    → IsPending (read_any env s e).1.ack_pending
unfolding read_any
read_any-IsPending env s deadline h = h
read_any-IsPending env s (received id bytes) h =
    handle_bytes-IsPending env
      (record (waited s) {
        links = update_link id (λ l. record_success l (now env (waited s))) s.links;
      })
      bytes h
read_any-IsPending env s (failed id e) h = ground (arith, h)

settle-IsPending :
    (o : ReadOutcome) (s : Session) (rest : Answer)
    → IsPending s.ack_pending
    → IsPending rest.1.ack_pending
    → IsPending (settle o s rest).1.ack_pending
settle-IsPending (msg seq payload) s rest h k = h
settle-IsPending continue s rest h k = k
settle-IsPending all_links_gone s rest h k = h

-- Whatever the links do, the counter is below eight after a call of `recv`, and it has a time exactly
-- while it is not zero. It starts again when an acknowledgement is due, also when its write fails
-- or there is no active link, so it is not the number of messages without an acknowledgement.
pub recv-IsPending :
    (env : Env) (es : List ReadEvent) (s : Session)
    → IsPending s.ack_pending
    → IsPending (recv env s es).1.ack_pending
unfolding recv
recv-IsPending env [] s h = elim (Bool-cases (no_links s.links)) [
  | inl e ↦ rw e h
  | inr e ↦ rw e (maybe_flush_ack-IsPending env s h)
]
recv-IsPending env (e ∷ es) s h =
    let s1 = maybe_flush_ack env s in
    let (o, s2) = read_any env s1 e in
    let h2 = read_any-IsPending env s1 e (maybe_flush_ack-IsPending env s h) in
    elim (Bool-cases (no_links s.links)) [
      | inl q ↦ rw q h
      | inr q ↦ rw q (settle-IsPending o s2 (recv env s2 es) h2 (recv-IsPending env es s2 h2))
    ]
