-- ===== src/Session/Recv/Coverage.antt =====
-- How many messages an acknowledgement of the reader stands for, while its writes succeed.
use mlink.Prelude.{
  ℕ, ◌+◌, ◌*◌, ◌<◌, ◌≤◌, ◌≡◌, refl, sym, ap, ◌∙◌, arith, String, List, [], ◌∷◌, ◌++◌, map, length,
  length-append, true, Option, none, some, leb, ◌==◌, ◌||◌, find, str_eq, Bool-cases, inl, inr,
}
use mathlib.Core.List.{append_assoc, append-nil}
use mlink.Link.{Link, after_io, record_success, record_error}
use mlink.Protocol.Errors.{ok}
use mlink.Protocol.Seq.{Observation}
use mlink.Protocol.Ack.{AckFrame}
use mlink.Session.State.{
  Session, Env, no_pending, ack_max_pending, link_send, link_by_id, now, update_link,
}
use mlink.Session.Manager.Capacity.{has_name}
use mlink.Session.Recv.{
  add_pending, active_link, send_ack, flush_ack_now, maybe_flush_ack, ack_should_flush,
  flush_if_reached, after_observe, encode_ack_frame, own_ack,
}

-- The active link is there.
abbrev pub ActiveIn : Option String → List Link → Type 0
ActiveIn none ls = ⊥
ActiveIn (some id) ls = has_name id ls ≡ true

pub record Ready (s : Session) : Type 0 where
  pub count_lt : s.ack_pending.count < ack_max_pending
  pub active_in : ActiveIn s.active s.links

abbrev pub ack_write : String × AckFrame → String × List ℕ
ack_write (id, a) = (id, encode_ack_frame a)

-- From `s` to `t` with `n` messages accepted.
pub record Covers (s : Session) (n : ℕ) (t : Session) : Type 0 where
  pub acks : List (String × AckFrame)
  pub sent_eq : t.wire.sent ≡ s.wire.sent ++ map ack_write acks
  pub covered : s.ack_pending.count + n ≤ t.ack_pending.count + ack_max_pending * length acks
  pub ready : Ready t

has_name-update_link :
    (k id : String) (f : Link → Link) (ls : List Link)
    → ((l : Link) → (f l).id ≡ l.id)
    → has_name k (update_link id f ls) ≡ has_name k ls
has_name-update_link k id f [] same = refl
has_name-update_link k id f (l ∷ ls) same = elim (Bool-cases (str_eq l.id id)) [
  | inl here ↦ rw here (ap (λ n. str_eq n k || has_name k ls) (same l))
  | inr there ↦ rw there (ap (λ b. str_eq l.id k || b) (has_name-update_link k id f ls same))
]

pub ActiveIn-update_link :
    (o : Option String) (id : String) (f : Link → Link) (ls : List Link)
    → ((l : Link) → (f l).id ≡ l.id)
    → ActiveIn o ls
    → ActiveIn o (update_link id f ls)
ActiveIn-update_link none id f ls same h = h
ActiveIn-update_link (some k) id f ls same h = has_name-update_link k id f ls same ∙ h

find-has_name :
    (k : String) (ls : List Link)
    → has_name k ls ≡ true
    → (l : Link) × (find (λ x. str_eq x.id k) ls ≡ some l)
find-has_name k [] h = absurd (ground (arith, h))
find-has_name k (l ∷ ls) h = elim (Bool-cases (str_eq l.id k)) [
  | inl here ↦ (l, rw here)
  | inr there ↦ let (x, e) = find-has_name k ls (ground (arith, h, there)) in (x, rw there e)
]

map-append {ℓ κ} :
    {A : Type ℓ} {B : Type κ} (f : A → B) (xs ys : List A) → map f (xs ++ ys) ≡ map f xs ++ map f ys
map-append f [] ys = refl
map-append f (x ∷ xs) ys = ap (λ t. f x ∷ t) (map-append f xs ys)

pub kept :
    (s t : Session)
    → t.ack_pending ≡ s.ack_pending
    → t.wire.sent ≡ s.wire.sent
    → Ready t
    → Covers s 0 t
kept s t p w r = record {
  acks = [];
  sent_eq = w ∙ sym (append-nil s.wire.sent);
  covered = omega (arith, ap (λ q. q.count) p);
  ready = r;
}

pub then_Covers : (s t u : Session) (n m : ℕ) → Covers s n t → Covers t m u → Covers s (n + m) u
then_Covers s t u n m h k = record {
  acks = h.acks ++ k.acks;
  sent_eq =
      k.sent_eq
      ∙ ap (λ w. w ++ map ack_write k.acks) h.sent_eq
      ∙ append_assoc s.wire.sent (map ack_write h.acks) (map ack_write k.acks)
      ∙ ap (λ w. s.wire.sent ++ w) (sym (map-append ack_write h.acks k.acks));
  covered = omega (arith, h.covered, k.covered, length-append h.acks k.acks);
  ready = k.ready;
}

active_link-some :
    (s : Session) (o : Option String)
    → s.active ≡ o
    → ActiveIn o s.links
    → (l : Link) × (active_link s ≡ some l)
unfolding link_by_id
active_link-some s none e h = absurd h
active_link-some s (some id) e h = let (l, q) = find-has_name id s.links h in (l, rw e q)

pub id_of_success : (l : Link) (at : ℕ) → (record_success l at).id ≡ l.id
unfolding record_success
id_of_success l at = refl

pub id_of_error : (l : Link) → (record_error l).id ≡ l.id
unfolding record_error
id_of_error l = refl

module _ (env : Env) (takes : (n : ℕ) (id : String) (b : List ℕ) → env.outcome n id b ≡ ok tt) where
  abbrev written : Session → Link → List ℕ → Session
  written s l b = record s {
    links = update_link l.id (λ x. record_success x (now env s)) s.links;
    wire = record { calls = s.wire.calls + 1; sent = s.wire.sent ++ ((l.id, b) ∷ []) };
  }

  link_send-ok :
      (s : Session) (l : Link) (b : List ℕ) → link_send env s l b ≡ (ok tt, written s l b)
  unfolding link_send after_io
  link_send-ok s l b = rw (takes s.wire.calls l.id b) refl

  written-Covers :
      (s : Session) (l : Link)
      → s.ack_pending.count ≤ ack_max_pending
      → ActiveIn s.active s.links
      → Covers s 0
          (written (record s { ack_pending = no_pending }) l (encode_ack_frame (own_ack s)))
  written-Covers s l c h = record {
    acks = (l.id, own_ack s) ∷ [];
    sent_eq = refl;
    covered = omega (arith, c);
    ready = record {
      count_lt = omega arith;
      active_in =
          ActiveIn-update_link s.active l.id (λ x. record_success x (now env s)) s.links
            (λ x. id_of_success x (now env s)) h;
    };
  }

  send_ack-Covers :
      (s : Session) (o : Option Link)
      → s.ack_pending.count ≤ ack_max_pending
      → ActiveIn s.active s.links
      → ((l : Link) × (o ≡ some l))
      → Covers s 0 (send_ack env (record s { ack_pending = no_pending }) o).1
  send_ack-Covers s o c h (l, q) =
      rw (q, link_send-ok (record s { ack_pending = no_pending }) l (encode_ack_frame (own_ack s)))
        (written-Covers s l c h)

  flush_ack_now-Covers :
      (s : Session)
      → s.ack_pending.count ≤ ack_max_pending
      → ActiveIn s.active s.links
      → Covers s 0 (flush_ack_now env s).1
  unfolding flush_ack_now
  flush_ack_now-Covers s c h = elim (Bool-cases (s.ack_pending.count == 0)) [
    | inl none_wait ↦
        rw none_wait
          (kept s s refl refl (record { count_lt = ground (arith, none_wait); active_in = h }))
    | inr some_wait ↦
        let s' : Session = record s { ack_pending = no_pending } in
        rw some_wait (send_ack-Covers s (active_link s') c h (active_link-some s' s.active refl h))
  ]

  pub maybe_flush_ack-Covers : (s : Session) → Ready s → Covers s 0 (maybe_flush_ack env s)
  unfolding maybe_flush_ack
  maybe_flush_ack-Covers s r = elim (Bool-cases (ack_should_flush s.ack_pending (now env s))) [
    | inl e ↦ rw e (flush_ack_now-Covers s (omega (arith, r.count_lt)) r.active_in)
    | inr e ↦ rw e (kept s s refl refl r)
  ]

  -- A session that has one more waiting than `s`, at most the limit.
  flush_if_reached-Covers :
      (s s1 : Session)
      → s1.wire.sent ≡ s.wire.sent
      → s1.ack_pending.count ≡ s.ack_pending.count + 1
      → s1.ack_pending.count ≤ ack_max_pending
      → ActiveIn s1.active s1.links
      → Covers s 1 (flush_if_reached env s1)
  flush_if_reached-Covers s s1 w p c h =
      let after : (t : Session) → Covers s1 0 t → Covers s 1 t = λ t k. record {
        acks = k.acks;
        sent_eq = k.sent_eq ∙ ap (λ x. x ++ map ack_write k.acks) w;
        covered = omega (arith, k.covered, p);
        ready = k.ready;
      } in
      elim (Bool-cases (leb ack_max_pending s1.ack_pending.count)) [
        | inl e ↦ rw e (after (flush_ack_now env s1).1 (flush_ack_now-Covers s1 c h))
        | inr e ↦ rw e (
            after s1
              (kept s1 s1 refl refl (record { count_lt = ground (arith, e); active_in = h })))
      ]

  -- How many messages were accepted.
  abbrev pub got : Option (ℕ × List ℕ) → ℕ
  got none = 0
  got (some m) = 1

  pub after_observe-Covers :
      (s : Session) (seq : ℕ) (body : List ℕ) (o : Observation)
      → Ready s
      → Covers s (got (after_observe env s seq body o).0) (after_observe env s seq body o).1
  after_observe-Covers s seq body Observation.accept r =
      let added = record s { ack_pending = add_pending s.ack_pending (now env s) } in
      flush_if_reached-Covers s added refl (ground (arith, r.count_lt)) (ground (arith, r.count_lt))
        r.active_in
  after_observe-Covers s seq body Observation.duplicate r = kept s s refl refl r
  after_observe-Covers s seq body Observation.stale r = kept s s refl refl r
