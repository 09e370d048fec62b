-- ===== src/Session/Send/Delivers.antt =====
-- A message gets out as long as one healthy link takes it.
use mlink.Prelude.{
  ℕ, ◌≡◌, refl, arith, String, List, [], ◌∷◌, ◌++◌, Bool, true, false, Option, none, some,
  Bool-cases, inl, inr, ◌∙◌, ap, All, str_eq, eq_iff, find, Option-cases,
}
use mlink.Link.{Link, is_healthy}
use mlink.Protocol.Errors.{Result, ok, err}
use mlink.Protocol.Types.{MessageType}
use mlink.Protocol.Seq.{next_seq}
use mlink.Protocol.Ack.{push}
use mlink.Session.State.{Session, Env, now, link_by_id, link_send, update_link}
use mlink.Session.Pick.{
  best_excluding, current_or_pick, pick, pick_best, healthy_or, promote, promote_on_failure,
  eligible,
}
use mlink.Session.Send.{transmit, over_primary, tried, retry_over, send, build}
use mlink.Session.Send.Outcomes.{current_or_pick-SameFlow, Report, send-Report}
use mlink.Session.Pick.Scheduler.{best_excluding_lem, Has}

str_ne_self : (l m : Link) → l ≡ m → str_eq l.id m.id ≡ false → ⊥
str_ne_self l m e h = ground (arith, eq_iff l.id m.id, ap (λ (k : Link). k.id) e)

-- A link of the session is found by its name, as a link of that name.
find-Has :
    (m : Link) (ls : List Link)
    → Has m ls
    → (l : Link) × (find (λ k. str_eq k.id m.id) ls ≡ some l) × (l.id ≡ m.id)
find-Has m [] h = absurd h
find-Has m (l ∷ ls) h = elim (Bool-cases (str_eq l.id m.id)) [
  | inl same ↦ (l, rw same, (eq_iff l.id m.id).0 same)
  | inr other ↦ elim h [
    | inl e ↦ absurd (str_ne_self l m e other)
    | inr k ↦ let (x, q, r) = find-Has m ls k in (x, rw other q, r)
  ]
]

link_by_id-Has :
    (s : Session) (m : Link)
    → Has m s.links
    → (l : Link) × (link_by_id s (m.id) ≡ some l) × (l.id ≡ m.id)
unfolding link_by_id
link_by_id-Has s m h = find-Has m s.links h

not_eligible :
    (p : Link → Bool) (m : Link) (ls : List Link)
    → Has m ls
    → All (λ l. p l ≡ false) ls
    → p m ≡ false
not_eligible p m [] h w = absurd h
not_eligible p m (l ∷ ls) (inl e) w = rw (← e) w.0
not_eligible p m (l ∷ ls) (inr h) w = not_eligible p m ls h w.1

-- Where a healthy link of another name is there, one is picked, and it is found.
picks_some :
    (env : Env) (s : Session) (ex : String) (m : Link)
    → Has m s.links
    → eligible env s ex m ≡ true
    → (l : Link) × (id : String) × (best_excluding env s ex ≡ some id)
      × (link_by_id s id ≡ some l)
      × (l.id ≡ id)
      × (str_eq id ex ≡ false)
picks_some env s ex m h e = elim (best_excluding_lem env s ex) [
  | inl (b, q, has, el, _) ↦
      let (l, f, i) = link_by_id-Has s b has in (l, b.id, q, f, i, ground (arith, el))
  | inr (_, none_of) ↦ absurd (ground (arith, not_eligible (eligible env s ex) m s.links h none_of))
]

-- A write over another link leaves the link where it is.
Has-update_link :
    (id : String) (f : Link → Link) (m : Link) (ls : List Link)
    → str_eq m.id id ≡ false
    → Has m ls
    → Has m (update_link id f ls)
Has-update_link id f m [] n h = h
Has-update_link id f m (l ∷ ls) n h = elim (Bool-cases (str_eq l.id id)) [
  | inl same ↦ elim h [
    | inl e ↦ absurd (ground (arith, ap (λ (k : Link). k.id) e, same, n))
    | inr k ↦ rw same (inr k)
  ]
  | inr other ↦ elim h [
    | inl e ↦ rw other (inl e)
    | inr k ↦ rw other (inr (Has-update_link id f m ls n k))
  ]
]

module _ (env : Env) (s : Session) where
  current_none : s.active ≡ none → (current_or_pick env s).0 ≡ (pick env s (pick_best env s)).0
  unfolding current_or_pick
  current_none e = ground (arith, e)

  current_some :
      (id : String)
      → s.active ≡ some id
      → (current_or_pick env s).0 ≡ (healthy_or env s (link_by_id s id)).0
  unfolding current_or_pick
  current_some id e = ground (arith, e)

  promote_eq : (p : String) → promote_on_failure env s p ≡ promote s (best_excluding env s p)
  unfolding promote_on_failure
  promote_eq p = refl

  transmit_eq :
      (seq : ℕ) (b : List ℕ) (t : MessageType)
      → (transmit env s seq b t).0
        ≡ (over_primary env (current_or_pick env s).1 seq b t (current_or_pick env s).0).0
  unfolding transmit
  transmit_eq seq b t = refl

link_by_id-promote :
    (s : Session) (id k : String) → link_by_id (promote s (some id)).1 k ≡ link_by_id s k
unfolding link_by_id
link_by_id-promote s id k = refl

-- The frame went out once, and waits.
abbrev pub GotOut : Session → ℕ → List ℕ → MessageType → Result ℕ × Session → Type 0
GotOut s seq bytes t r =
    (r.0 ≡ ok seq)
    × ((id : String) × (r.1.wire.sent ≡ s.wire.sent ++ ((id, bytes) ∷ [])))
    × (r.1.unacked ≡ (push s.unacked seq (record { bytes = bytes; msg_type = t })).1)

Report-GotOut :
    (s : Session) (seq : ℕ) (bytes : List ℕ) (t : MessageType) (r : Result ℕ × Session)
    → Report s seq bytes t r
    → r.0 ≡ ok seq
    → GotOut s seq bytes t r
Report-GotOut s seq bytes t (ok q, s') (_, u, w) e = (e, w, u)
Report-GotOut s seq bytes t (err x, s') h e = cc

-- All writes succeed but those over the link `p`; and there is a link of another name that is
-- healthy at all times.
module _ (env : Env) (p : String) (m : Link)
    (takes : (n : ℕ) (id : String) (b : List ℕ) → str_eq id p ≡ false → env.outcome n id b ≡ ok tt)
    (healthy : (n : ℕ) → is_healthy m (env.clock n) ≡ true) (other : str_eq m.id p ≡ false)
    (named : str_eq m.id "" ≡ false) where
  eligible_always : (s : Session) → (eligible env s "" m ≡ true) × (eligible env s p m ≡ true)
  eligible_always s = ground (arith, healthy s.wire.calls)

  pick-some :
      (s : Session) → Has m s.links → (l : Link) × ((pick env s (pick_best env s)).0 ≡ some l)
  pick-some s h =
      let (l, id, q, f, _, _) = picks_some env s "" m h (eligible_always s).0 in (l, rw (q, f))

  healthy_or-some :
      (s : Session) (o : Option Link)
      → Has m s.links
      → (l : Link) × ((healthy_or env s o).0 ≡ some l)
  healthy_or-some s none h = pick-some s h
  healthy_or-some s (some l) h = elim (Bool-cases (is_healthy l (now env s))) [
    | inl e ↦ (l, rw e)
    | inr e ↦ let (k, q) = pick-some s h in (k, rw e q)
  ]

  -- The current link, or the best, is there.
  primary_some : (s : Session) → Has m s.links → (l : Link) × ((current_or_pick env s).0 ≡ some l)
  primary_some s h = elim (Option-cases s.active) [
    | inl e ↦ let (l, q) = pick-some s h in (l, (current_none env s e) ∙ q)
    | inr (id, e) ↦
        let (l, q) = healthy_or-some s (link_by_id s id) h in (l, current_some env s id e ∙ q)
  ]

  write_ok :
      (s : Session) (l : Link) (b : List ℕ)
      → str_eq l.id p ≡ false
      → (link_send env s l b).0 ≡ ok tt
  unfolding link_send
  write_ok s l b h = takes s.wire.calls l.id b h

  link_send_keeps :
      (s : Session) (l : Link) (b : List ℕ)
      → l.id ≡ p
      → Has m s.links
      → Has m (link_send env s l b).1.links
  unfolding link_send
  link_send_keeps s l b e h = Has-update_link l.id _ m s.links (rw e other) h

  retry_ok :
      (s : Session) (seq : ℕ) (b : List ℕ) (t : MessageType) (l : Link)
      → str_eq l.id p ≡ false
      → (retry_over env s seq b t (some l)).0 ≡ ok seq
  retry_ok s seq b t l h = rw (write_ok s l b h)

  tried_ok :
      (s : Session) (seq : ℕ) (b : List ℕ) (t : MessageType) (r : Result (Unit {0})) (id : String)
      → id ≡ p
      → Has m s.links
      → (tried env s id seq b t r).0 ≡ ok seq
  tried_ok s seq b t (ok x) id same h = refl
  tried_ok s seq b t (err e) name same h =
      let (l, id, q, f, i, n) = picks_some env s p m h (eligible_always s).1 in
      rw (same, promote_eq env s p, q, link_by_id-promote s id id, f)
        (retry_ok (promote s (some id)).1 seq b t l (rw i n))

  primary_ok :
      (s : Session) (seq : ℕ) (b : List ℕ) (t : MessageType) (l : Link)
      → Has m s.links
      → (over_primary env s seq b t (some l)).0 ≡ ok seq
  primary_ok s seq b t l h = elim (Bool-cases (str_eq l.id p)) [
    | inl same ↦
        let e : l.id ≡ p = (eq_iff l.id p).0 same in
        tried_ok (link_send env s l b).1 seq b t (link_send env s l b).0 l.id e
          (link_send_keeps s l b e h)
    | inr ne ↦ rw (write_ok s l b ne)
  ]

  transmit_ok :
      (s : Session) (seq : ℕ) (b : List ℕ) (t : MessageType)
      → Has m s.links
      → (transmit env s seq b t).0 ≡ ok seq
  transmit_ok s seq b t h =
      let (l, q) = primary_some s h in
      transmit_eq env s seq b t
      ∙ rw q (
          primary_ok (current_or_pick env s).1 seq b t l
            (rw ((current_or_pick-SameFlow env s).links_eq) h))

  send_ok :
      (s : Session) (t : MessageType) (payload : List ℕ) (key : Option (List ℕ)) (compress : Bool)
      (bytes : List ℕ)
      → build env s.send_seq.next t payload key compress ≡ ok bytes
      → Has m s.links
      → (send env s t payload key compress).0 ≡ ok s.send_seq.next
  unfolding send
  send_ok s t payload key compress bytes e h =
      rw e (transmit_ok (record s { send_seq = (next_seq s.send_seq).1 }) s.send_seq.next bytes t h)

  -- A payload that makes a frame gets out, if all writes but those over one link succeed, and a link
  -- is there that is healthy at all times and whose name is another one and not empty: the number that
  -- was next is returned, the frame was written exactly once, over some link, and it waits in the
  -- ring for its acknowledgement.
  pub send_delivers :
      (s : Session) (t : MessageType) (payload : List ℕ) (key : Option (List ℕ)) (compress : Bool)
      (bytes : List ℕ)
      → build env s.send_seq.next t payload key compress ≡ ok bytes
      → Has m s.links
      → GotOut s s.send_seq.next bytes t (send env s t payload key compress)
  send_delivers s t payload key compress bytes e h =
      Report-GotOut s s.send_seq.next bytes t (send env s t payload key compress)
        (send-Report env s t payload key compress bytes e)
        (send_ok s t payload key compress bytes e h)
