-- ===== src/Session/Send/Acks.antt =====
-- Sending the frames that wait for an acknowledgement again.
use mlink.Prelude.{
  ℕ, ◌^◌, ◌<◌, ◌≡◌, refl, sym, arith, List, [], ◌∷◌, ◌++◌, map, retain, ltb, some, ap, ◌∙◌, String,
  All,
}
use mathlib.Core.List.{append_assoc, append-nil}
use mlink.Link.{Link}
use mlink.Protocol.Errors.{ok}
use mlink.Protocol.Seq.{u32_mod}
use mlink.Protocol.Ack.{unacked_since, seq_geq}
use mlink.Session.State.{Session, Env, PendingFrame, link_by_id, link_send}
use mlink.Session.Send.{flush_items, flush_unacked_over}

-- The second half of the number space is behind 0.
seq_geq-zero : (n : ℕ) → n < u32_mod → seq_geq n 0 ≡ ltb n (2 ^ 31)
unfolding seq_geq
seq_geq-zero n h = ground arith

retain-seq_geq :
    (es : List (ℕ × PendingFrame))
    → All (λ e. e.0 < u32_mod) es
    → retain (λ e. seq_geq e.0 0) es ≡ retain (λ e. ltb e.0 (2 ^ 31)) es
retain-seq_geq [] h = refl
retain-seq_geq ((n, x) ∷ es) h = rw (seq_geq-zero n h.0, retain-seq_geq es h.1)

since_zero :
    (s : Session)
    → All (λ e. e.0 < u32_mod) s.unacked.buf
    → unacked_since s.unacked 0 ≡ retain (λ e. ltb e.0 (2 ^ 31)) s.unacked.buf
unfolding unacked_since
since_zero s h = retain-seq_geq s.unacked.buf h

abbrev pub copies : String → List (ℕ × PendingFrame) → List (String × List ℕ)
copies id es = map (λ e. (id, e.1.bytes)) es

-- All writes over the link succeed.
module _ (env : Env) (link : Link)
    (takes : (n : ℕ) (b : List ℕ) → env.outcome n link.id b ≡ ok tt) where
  sent_one :
      (s : Session) (b : List ℕ)
      → ((link_send env s link b).0 ≡ ok tt)
        × ((link_send env s link b).1.wire.sent ≡ s.wire.sent ++ ((link.id, b) ∷ []))
  unfolding link_send
  sent_one s b = rw (takes s.wire.calls b) (refl, refl)

  sent_items :
      (es : List (ℕ × PendingFrame)) (s : Session)
      → ((flush_items env s link es).0 ≡ ok tt)
        × ((flush_items env s link es).1.wire.sent ≡ s.wire.sent ++ copies link.id es)
  unfolding flush_items link_send
  sent_items [] s = (refl, sym (append-nil s.wire.sent))
  sent_items ((n, pf) ∷ es) s =
      let (o, w) = sent_one s pf.bytes in
      let (r, v) = sent_items es (link_send env s link pf.bytes).1 in
      rw o (
        r,
        v
            ∙ ap (λ l. l ++ copies link.id es) w
            ∙ append_assoc s.wire.sent ((link.id, pf.bytes) ∷ []) (copies link.id es),
      )

  -- Where all writes over the link succeed, exactly the frames with a number below 2 ^ 31 are sent
  -- again, once each and in their order; those with a larger one are passed over.
  pub flush_unacked_over_lem :
      (s : Session) (id : String)
      → link_by_id s id ≡ some link
      → All (λ e. e.0 < u32_mod) s.unacked.buf
      → ((flush_unacked_over env s id).0 ≡ ok tt)
        × ((flush_unacked_over env s id).1.wire.sent
            ≡ s.wire.sent ++ copies link.id (retain (λ e. ltb e.0 (2 ^ 31)) s.unacked.buf))
  unfolding flush_unacked_over
  flush_unacked_over_lem s id e h =
      rw (e, since_zero s h) (sent_items (retain (λ x. ltb x.0 (2 ^ 31)) s.unacked.buf) s)
