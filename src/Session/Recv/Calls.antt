-- ===== src/Session/Recv/Calls.antt =====
-- Calls of `recv`, one after the other, and the acknowledgements that they write.
use mlink.Prelude.{
  ℕ, ◌+◌, ◌≡◌, refl, arith, String, List, [], ◌∷◌, length, Option, none, some, not, ltb, any,
  str_eq, Bool-cases, inl, inr, take, drop, from_be_bytes,
}
use mlink.Link.{record_success, record_error}
use mlink.Protocol.Errors.{Result, ok, err}
use mlink.Protocol.Types.{Frame, MessageType, decode_flags}
use mlink.Protocol.Frame.{decode_frame}
use mlink.Protocol.Seq.{observe}
use mlink.Protocol.Ack.{AckFrame, decode_ack}
use mlink.Session.State.{Session, Env, now, update_link, emit, link_removed}
use mlink.Session.Send.{on_ack}
use mlink.Session.Recv.{
  maybe_flush_ack, consume_message, of_message, acknowledged, by_type, by_frame, handle_bytes,
  ReadEvent, deadline, received, failed, read_any, recv, ReadOutcome, msg, continue, all_links_gone,
  no_links, settle, waited, Answer, session_seq_header,
}
use mlink.Session.Recv.Coverage.{
  Ready, Covers, kept, then_Covers, ActiveIn-update_link, id_of_success, id_of_error, got,
  maybe_flush_ack-Covers, after_observe-Covers,
}

-- How many messages an outcome, or an answer, hands to the caller.
abbrev handed : ReadOutcome → ℕ
handed (msg seq payload) = 1
handed continue = 0
handed all_links_gone = 0

abbrev pub returned : Option (Result (ℕ × List ℕ)) → ℕ
returned none = 0
returned (some (ok m)) = 1
returned (some (err e)) = 0

-- The messages that calls of `recv` return, each over the events of its rounds.
abbrev pub recv_each : Env → Session → List (List ReadEvent) → ℕ × Session
recv_each env s [] = (0, s)
recv_each env s (es ∷ ess) =
    let rest = recv_each env (recv env s es).1 ess in (returned (recv env s es).0 + rest.0, rest.1)

after_none : (s t u : Session) (n : ℕ) → Covers s 0 t → Covers t n u → Covers s n u
after_none s t u n h k =
    let both = then_Covers s t u 0 n h k in
    record {
      acks = both.acks;
      sent_eq = both.sent_eq;
      covered = omega (arith, both.covered);
      ready = both.ready;
    }

on_ack-Covers : (s : Session) (a : AckFrame) → Ready s → Covers s 0 (on_ack s a)
unfolding on_ack
on_ack-Covers s a r =
    kept s (on_ack s a) refl refl (record { count_lt = r.count_lt; active_in = r.active_in })

module _ (env : Env) (takes : (n : ℕ) (id : String) (b : List ℕ) → env.outcome n id b ≡ ok tt) where
  consume_message-Covers :
      (s : Session) (frame : Frame)
      → Ready s
      → Covers s (got env takes (consume_message env s frame).0) (consume_message env s frame).1
  unfolding consume_message
  consume_message-Covers s frame r =
      elim (Bool-cases (ltb (length frame.payload) session_seq_header)) [
        | inl e ↦ rw e (kept s s refl refl r)
        | inr e ↦
            let seq = from_be_bytes (take 4 frame.payload) in
            let looked = record s { dedup = (observe s.dedup seq).1 } in
            let k =
              after_observe-Covers env takes looked seq (drop session_seq_header frame.payload)
                (observe s.dedup seq).0
                (record { count_lt = r.count_lt; active_in = r.active_in }) in
            rw e
              (record { acks = k.acks; sent_eq = k.sent_eq; covered = k.covered; ready = k.ready })
      ]

  of_message-Covers :
      (s : Session) (r : Option (ℕ × List ℕ) × Session)
      → Covers s (got env takes r.0) r.1
      → Covers s (handed (of_message r).0) (of_message r).1
  of_message-Covers s (none, t) k = k
  of_message-Covers s (some (seq, payload), t) k = k

  acknowledged-Covers :
      (s : Session) (r : Result AckFrame)
      → Ready s
      → Covers s (handed (acknowledged s r).0) (acknowledged s r).1
  acknowledged-Covers s (ok a) r = on_ack-Covers s a r
  acknowledged-Covers s (err e) r = kept s s refl refl r

  by_type-Covers :
      (s : Session) (frame : Frame) (t : MessageType)
      → Ready s
      → Covers s (handed (by_type env s frame t).0) (by_type env s frame t).1
  by_type-Covers s frame MessageType.ack r = acknowledged-Covers s (decode_ack frame.payload) r
  by_type-Covers s frame MessageType.message r =
      of_message-Covers s (consume_message env s frame) (consume_message-Covers s frame r)
  by_type-Covers s frame other r = kept s s refl refl r

  by_frame-Covers :
      (s : Session) (f : Result Frame)
      → Ready s
      → Covers s (handed (by_frame env s f).0) (by_frame env s f).1
  by_frame-Covers s (err e) r = kept s s refl refl r
  by_frame-Covers s (ok frame) r = by_type-Covers s frame ((decode_flags frame.flags).2) r

  handle_bytes-Covers :
      (s : Session) (bytes : List ℕ)
      → Ready s
      → Covers s (handed (handle_bytes env s bytes).0) (handle_bytes env s bytes).1
  unfolding handle_bytes
  handle_bytes-Covers s bytes r = by_frame-Covers s (decode_frame bytes) r

  read_any-Covers :
      (s : Session) (e : ReadEvent)
      → Ready s
      → Covers s (handed (read_any env s e).0) (read_any env s e).1
  unfolding read_any
  read_any-Covers s deadline r =
      kept s (waited s) refl refl (record { count_lt = r.count_lt; active_in = r.active_in })
  read_any-Covers s (received id bytes) r =
      let at = now env (waited s) in
      let k =
        handle_bytes-Covers
          (record (waited s) { links = update_link id (λ l. record_success l at) s.links }) bytes
          (record {
            count_lt = r.count_lt;
            active_in =
                ActiveIn-update_link s.active id (λ l. record_success l at) s.links
                  (λ l. id_of_success l at) r.active_in;
          }) in
      record { acks = k.acks; sent_eq = k.sent_eq; covered = k.covered; ready = k.ready }
  read_any-Covers s (failed id e) r =
      let links = update_link id record_error s.links in
      let lost =
        emit (record (waited s) { links = links }) (link_removed s.peer_id id "recv_error") in
      let ready : Ready lost = record {
        count_lt = r.count_lt;
        active_in = ActiveIn-update_link s.active id record_error s.links id_of_error r.active_in;
      } in
      elim (Bool-cases (any (λ l. not (str_eq l.id id)) links)) [
        | inl q ↦ rw q (kept s lost refl refl ready)
        | inr q ↦ rw q (kept s lost refl refl ready)
      ]

  settle-Covers :
      (s : Session) (o : ReadOutcome) (t : Session) (rest : Answer)
      → Covers s (handed o) t
      → Covers t (returned rest.0) rest.1
      → Covers s (returned (settle o t rest).0) (settle o t rest).1
  settle-Covers s (msg seq payload) t rest h k = h
  settle-Covers s continue t rest h k = after_none s t rest.1 (returned rest.0) h k
  settle-Covers s all_links_gone t rest h k = h

  recv-Covers :
      (s : Session) (es : List ReadEvent)
      → Ready s
      → Covers s (returned (recv env s es).0) (recv env s es).1
  unfolding recv
  recv-Covers s [] r = elim (Bool-cases (no_links s.links)) [
    | inl e ↦ rw e (kept s s refl refl r)
    | inr e ↦ rw e (maybe_flush_ack-Covers env takes s r)
  ]
  recv-Covers s (e ∷ es) r =
      let s1 = maybe_flush_ack env s in
      let first = maybe_flush_ack-Covers env takes s r in
      let (o, s2) = read_any env s1 e in
      let second = read_any-Covers s1 e first.ready in
      elim (Bool-cases (no_links s.links)) [
        | inl q ↦ rw q (kept s s refl refl r)
        | inr q ↦ rw q (
            settle-Covers s o s2 (recv env s2 es) (after_none s s1 s2 (handed o) first second)
              (recv-Covers s2 es second.ready))
      ]

  -- While the writes succeed, from a session whose active link is there and where fewer than eight
  -- messages wait: whatever the calls of `recv` read, in whatever rounds, all that they write are
  -- acknowledgements, and these are enough. The messages that waited before and those that the calls
  -- return are at most eight for each acknowledgement and those that wait after, which are fewer
  -- than eight again.
  pub recv_each-Covers :
      (s : Session) (calls : List (List ReadEvent))
      → Ready s
      → Covers s (recv_each env s calls).0 (recv_each env s calls).1
  recv_each-Covers s [] r = kept s s refl refl r
  recv_each-Covers s (es ∷ ess) r =
      let first = recv-Covers s es r in
      then_Covers s (recv env s es).1 (recv_each env (recv env s es).1 ess).1
        (returned (recv env s es).0) (recv_each env (recv env s es).1 ess).0 first
        (recv_each-Covers (recv env s es).1 ess first.ready)
