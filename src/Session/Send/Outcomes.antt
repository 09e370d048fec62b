-- ===== src/Session/Send/Outcomes.antt =====
-- What a call of `send` leaves behind, whatever the links do.
use mlink.Prelude.{
  ℕ, ◌+◌, ◌%◌, ◌^◌, ◌≡◌, refl, arith, String, List, [], ◌∷◌, ◌++◌, Bool, Option, none, some, ◌∙◌,
  ap,
}
use mlink.Link.{Link}
use mlink.Protocol.Errors.{Result, ok, err, MlinkError}
use mlink.Protocol.Types.{MessageType}
use mlink.Protocol.Seq.{next_seq}
use mlink.Protocol.Ack.{push, UnackedRing}
use mlink.Session.State.{Session, Env, Wire, PendingFrame, link_by_id, link_send, log_write}
use mlink.Session.Pick.{current_or_pick, promote_on_failure}
use mlink.Session.Send.{
  transmit, over_primary, tried, fail_over, retry_over, retried, record_unacked, send, build,
}

-- Nothing that `send` leaves alone differs.
pub record SameRest (s t : Session) : Type 0 where
  pub peer_id_eq : t.peer_id ≡ s.peer_id
  pub session_id_eq : t.session_id ≡ s.session_id
  pub dedup_eq : t.dedup ≡ s.dedup
  pub ack_pending_eq : t.ack_pending ≡ s.ack_pending
  pub sched_state_eq : t.sched_state ≡ s.sched_state

-- Only the choice of the active link and the events differ.
pub record SameFlow (s t : Session) : Type 0 where
  pub rest : SameRest s t
  pub unacked_eq : t.unacked ≡ s.unacked
  pub seq_eq : t.send_seq ≡ s.send_seq
  pub wire_eq : t.wire ≡ s.wire
  pub links_eq : t.links ≡ s.links

SameFlow-refl : (s : Session) → SameFlow s s
SameFlow-refl s = record {
  rest = record {
    peer_id_eq = refl;
    session_id_eq = refl;
    dedup_eq = refl;
    ack_pending_eq = refl;
    sched_state_eq = refl;
  };
  unacked_eq = refl;
  seq_eq = refl;
  wire_eq = refl;
  links_eq = refl;
}

SameFlow-trans : (s t u : Session) → SameFlow s t → SameFlow t u → SameFlow s u
SameFlow-trans s t u h k = ground arith

pub current_or_pick-SameFlow : (env : Env) (s : Session) → SameFlow s (current_or_pick env s).1
unfolding current_or_pick
current_or_pick-SameFlow env s = ground arith

pub promote-SameFlow :
    (env : Env) (s : Session) (id : String) → SameFlow s (promote_on_failure env s id).1
unfolding promote_on_failure
promote-SameFlow env s id = ground arith

-- What a write leaves: the link's health and the wire change, nothing else.
record SameButWire (s t : Session) : Type 0 where
  pub rest : SameRest s t
  unacked_eq : t.unacked ≡ s.unacked
  seq_eq : t.send_seq ≡ s.send_seq
  active_eq : t.active ≡ s.active
  calls_eq : t.wire.calls ≡ s.wire.calls + 1

link_send-SameButWire :
    (env : Env) (s : Session) (l : Link) (bytes : List ℕ)
    → SameButWire s (link_send env s l bytes).1
unfolding link_send
link_send-SameButWire env s l bytes = ground arith

abbrev sent_after :
    Result (Unit {0}) → String → List ℕ → List (String × List ℕ) → List (String × List ℕ)
sent_after (ok x) id bytes sent = sent ++ ((id, bytes) ∷ [])
sent_after (err e) id bytes sent = sent

sent-log_write :
    (r : Result (Unit {0})) (id : String) (bytes : List ℕ) (w : Wire)
    → (log_write r id bytes w).sent ≡ sent_after r id bytes w.sent
sent-log_write (ok x) id bytes w = refl
sent-log_write (err e) id bytes w = refl

sent-link_send :
    (env : Env) (s : Session) (l : Link) (bytes : List ℕ)
    → (link_send env s l bytes).1.wire.sent
      ≡ sent_after (link_send env s l bytes).0 l.id bytes s.wire.sent
unfolding link_send
sent-link_send env s l bytes =
    sent-log_write (env.outcome s.wire.calls l.id bytes) l.id bytes s.wire

-- What one call of `send` reports and what it did, for a frame of these bytes: success means that
-- exactly one write went out and that the frame waits for its acknowledgement; an error means that
-- no write went out and that nothing waits.
abbrev pub Report : Session → ℕ → List ℕ → MessageType → Result ℕ × Session → Type 0
Report s seq bytes t (ok q, s') =
    (q ≡ seq)
    × (s'.unacked ≡ (push s.unacked seq (record { bytes = bytes; msg_type = t })).1)
    × ((id : String) × (s'.wire.sent ≡ s.wire.sent ++ ((id, bytes) ∷ [])))
Report s seq bytes t (err e, s') = (s'.unacked ≡ s.unacked) × (s'.wire.sent ≡ s.wire.sent)

-- The attempts of one call, from a state that is `s` but for what `SameFlow` lets differ.
module _ (env : Env) (s : Session) (seq : ℕ) (bytes : List ℕ) (t : MessageType) where
  retried-Report :
      (s2 : Session) (r : Result (Unit {0})) (id : String)
      → s2.unacked ≡ s.unacked
      → s2.wire.sent ≡ sent_after r id bytes s.wire.sent
      → Report s seq bytes t (retried s2 seq bytes t r)
  unfolding record_unacked
  retried-Report s2 (ok x) id u w = (
    refl,
    ap (λ (b : UnackedRing PendingFrame). (push b seq (record { bytes = bytes; msg_type = t })).1)
        u,
    (id, w),
  )
  retried-Report s2 (err e) id u w = (u, w)

  retry_over-Report :
      (s1 : Session) (o : Option Link)
      → s1.unacked ≡ s.unacked
      → s1.wire.sent ≡ s.wire.sent
      → Report s seq bytes t (retry_over env s1 seq bytes t o)
  retry_over-Report s1 none u w = (u, w)
  retry_over-Report s1 (some l) u w =
      retried-Report (link_send env s1 l bytes).1 (link_send env s1 l bytes).0 l.id
        ((link_send-SameButWire env s1 l bytes).unacked_eq ∙ u)
        (sent-link_send env s1 l bytes ∙ ap (sent_after (link_send env s1 l bytes).0 l.id bytes) w)

  fail_over-Report :
      (s1 : Session) (o : Option String)
      → s1.unacked ≡ s.unacked
      → s1.wire.sent ≡ s.wire.sent
      → Report s seq bytes t (fail_over env s1 seq bytes t o)
  fail_over-Report s1 none u w = (u, w)
  fail_over-Report s1 (some id) u w = retry_over-Report s1 (link_by_id s1 id) u w

  tried-Report :
      (s2 : Session) (r : Result (Unit {0})) (id : String)
      → s2.unacked ≡ s.unacked
      → s2.wire.sent ≡ sent_after r id bytes s.wire.sent
      → Report s seq bytes t (tried env s2 id seq bytes t r)
  unfolding record_unacked
  tried-Report s2 (ok x) id u w = (
    refl,
    ap (λ (b : UnackedRing PendingFrame). (push b seq (record { bytes = bytes; msg_type = t })).1)
        u,
    (id, w),
  )
  tried-Report s2 (err e) id u w =
      let f = promote-SameFlow env s2 id in
      fail_over-Report (promote_on_failure env s2 id).1 (promote_on_failure env s2 id).0
        (f.unacked_eq ∙ u) (ap (λ (w : Wire). w.sent) f.wire_eq ∙ w)

  over_primary-Report :
      (s1 : Session) (o : Option Link)
      → s1.unacked ≡ s.unacked
      → s1.wire.sent ≡ s.wire.sent
      → Report s seq bytes t (over_primary env s1 seq bytes t o)
  over_primary-Report s1 none u w = (u, w)
  over_primary-Report s1 (some l) u w =
      tried-Report (link_send env s1 l bytes).1 (link_send env s1 l bytes).0 l.id
        ((link_send-SameButWire env s1 l bytes).unacked_eq ∙ u)
        (sent-link_send env s1 l bytes ∙ ap (sent_after (link_send env s1 l bytes).0 l.id bytes) w)

  transmit-Report : Report s seq bytes t (transmit env s seq bytes t)
  unfolding transmit
  transmit-Report =
      let f = current_or_pick-SameFlow env s in
      over_primary-Report (current_or_pick env s).1 (current_or_pick env s).0 f.unacked_eq
        (ap (λ (w : Wire). w.sent) f.wire_eq)

-- Whatever the links do, a payload that makes a frame is reported truthfully: `ok` gives the number
-- that was next, and then the frame was written exactly once and waits in the ring; an error means
-- that it was written nowhere and waits nowhere.
pub send-Report :
    (env : Env) (s : Session) (t : MessageType) (payload : List ℕ) (key : Option (List ℕ))
    (compress : Bool) (bytes : List ℕ)
    → build env s.send_seq.next t payload key compress ≡ ok bytes
    → Report s s.send_seq.next bytes t (send env s t payload key compress)
unfolding send
send-Report env s t payload key compress bytes h =
    rw h (
      transmit-Report env (record s { send_seq = (next_seq s.send_seq).1 }) s.send_seq.next bytes t)

-- A payload that makes no frame is an error, and no link is touched; its number is spent.
pub send_unbuilt :
    (env : Env) (s : Session) (t : MessageType) (payload : List ℕ) (key : Option (List ℕ))
    (compress : Bool) (e : MlinkError)
    → build env s.send_seq.next t payload key compress ≡ err e
    → send env s t payload key compress
      ≡ (err e, record s { send_seq = record { next = (s.send_seq.next + 1) % 2 ^ 32 } })
unfolding send
send_unbuilt env s t payload key compress e h = rw h
