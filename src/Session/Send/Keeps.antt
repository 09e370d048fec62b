-- ===== src/Session/Send/Keeps.antt =====
-- What a call of `send` leaves as it was.
use mlink.Prelude.{ℕ, ◌+◌, ◌%◌, ◌^◌, ◌≤◌, ◌≡◌, arith, String, List, Bool, Option, none, some}
use mlink.Link.{Link}
use mlink.Protocol.Errors.{Result, ok, err}
use mlink.Protocol.Types.{MessageType}
use mlink.Protocol.Seq.{next_seq}
use mlink.Session.State.{Session, Env, link_by_id, link_send}
use mlink.Session.Pick.{current_or_pick, promote_on_failure}
use mlink.Session.Send.{
  transmit, over_primary, tried, fail_over, retry_over, retried, record_unacked, dispatch, send,
  build,
}
use mlink.Session.Send.Outcomes.{SameRest, SameFlow, promote-SameFlow, current_or_pick-SameFlow}

-- The receiving side, the names and the number that is next are as they were, and at most `k`
-- writes were attempted.
pub record Kept (k : ℕ) (s t : Session) : Type 0 where
  pub rest : SameRest s t
  pub seq_eq : t.send_seq ≡ s.send_seq
  pub calls_le : t.wire.calls ≤ s.wire.calls + k

Kept-trans : (j k : ℕ) (s t u : Session) → Kept j s t → Kept k t u → Kept (j + k) s u
Kept-trans j k s t u h h' = ground arith

SameFlow→Kept : (s t : Session) → SameFlow s t → Kept 0 s t
SameFlow→Kept s t h = ground arith

link_send-Kept :
    (env : Env) (s : Session) (l : Link) (bytes : List ℕ) → Kept 1 s (link_send env s l bytes).1
unfolding link_send
link_send-Kept env s l bytes = ground arith

record_unacked-Kept :
    (s : Session) (seq : ℕ) (bytes : List ℕ) (t : MessageType)
    → Kept 0 s (record_unacked s seq bytes t)
unfolding record_unacked
record_unacked-Kept s seq bytes t = ground arith

Kept-refl : (k : ℕ) (s : Session) → Kept k s s
Kept-refl k s = ground arith

module _ (env : Env) (seq : ℕ) (bytes : List ℕ) (t : MessageType) where
  retried-Kept : (s : Session) (r : Result (Unit {0})) → Kept 0 s (retried s seq bytes t r).1
  retried-Kept s (ok x) = record_unacked-Kept s seq bytes t
  retried-Kept s (err e) = Kept-refl 0 s

  retry_over-Kept : (s : Session) (o : Option Link) → Kept 1 s (retry_over env s seq bytes t o).1
  retry_over-Kept s none = Kept-refl 1 s
  retry_over-Kept s (some l) =
      let (r, s') = link_send env s l bytes in
      Kept-trans 1 0 s s' (retried s' seq bytes t r).1 (link_send-Kept env s l bytes)
        (retried-Kept s' r)

  fail_over-Kept : (s : Session) (o : Option String) → Kept 1 s (fail_over env s seq bytes t o).1
  fail_over-Kept s none = Kept-refl 1 s
  fail_over-Kept s (some id) = retry_over-Kept s (link_by_id s id)

  tried-Kept :
      (s : Session) (r : Result (Unit {0})) (id : String)
      → Kept 1 s (tried env s id seq bytes t r).1
  tried-Kept s (ok x) id =
      Kept-trans 0 1 s (record_unacked s seq bytes t) (record_unacked s seq bytes t)
        (record_unacked-Kept s seq bytes t) (Kept-refl 1 (record_unacked s seq bytes t))
  tried-Kept s (err e) id =
      let (o, s') = promote_on_failure env s id in
      Kept-trans 0 1 s s' (fail_over env s' seq bytes t o).1
        (SameFlow→Kept s s' (promote-SameFlow env s id)) (fail_over-Kept s' o)

  over_primary-Kept :
      (s : Session) (o : Option Link) → Kept 2 s (over_primary env s seq bytes t o).1
  over_primary-Kept s none = Kept-refl 2 s
  over_primary-Kept s (some l) =
      let (r, s') = link_send env s l bytes in
      Kept-trans 1 1 s s' (tried env s' l.id seq bytes t r).1 (link_send-Kept env s l bytes)
        (tried-Kept s' r l.id)

  transmit-Kept : (s : Session) → Kept 2 s (transmit env s seq bytes t).1
  unfolding transmit
  transmit-Kept s =
      let (o, s') = current_or_pick env s in
      Kept-trans 0 2 s s' (over_primary env s' seq bytes t o).1
        (SameFlow→Kept s s' (current_or_pick-SameFlow env s)) (over_primary-Kept s' o)

dispatch-Kept :
    (env : Env) (s : Session) (seq : ℕ) (t : MessageType) (b : Result (List ℕ))
    → Kept 2 s (dispatch env s seq t b).1
dispatch-Kept env s seq t (ok bytes) = transmit-Kept env seq bytes t s
dispatch-Kept env s seq t (err e) = Kept-refl 2 s

-- Every call of `send`, failed or not, takes one number, attempts at most two writes and leaves the
-- receiving side, the delayed acknowledgements and the counts of the scheduler alone.
pub send-Kept :
    (env : Env) (s : Session) (t : MessageType) (payload : List ℕ) (key : Option (List ℕ))
    (compress : Bool)
    → Kept 2
        (record s { send_seq = record { next = (s.send_seq.next + 1) % 2 ^ 32 } })
        (send env s t payload key compress).1
unfolding send
send-Kept env s t payload key compress =
    dispatch-Kept env (record s { send_seq = (next_seq s.send_seq).1 }) s.send_seq.next t
      (build env s.send_seq.next t payload key compress)
