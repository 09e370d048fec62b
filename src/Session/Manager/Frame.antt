-- ===== src/Session/Manager/Frame.antt =====
-- Detaching and dropping: what is gone, and what is as it was.
use mlink.Prelude.{
  delete, lookup, lookup-delete, lookup-replace, str_eq_refl, ℕ, ◌≡◌, refl, arith, String, List, [],
  ◌∷◌, Bool, true, false, Option, none, some, if◌then◌else◌, str_eq, Bool-cases, inl, inr,
}
use mlink.Link.{Link}
use mlink.Session.State.{Session}
use mlink.Session.Manager.{
  switch_to, switch_in, switch_active_link, SessionManager, get, attach_existing, attach_to,
  attach_link, drop_peer, remove_link, detach, is_empty, detached, detach_from, detach_link,
}
use mlink.Session.Manager.Capacity.{has_name}
use mlink.Session.Manager.Reach.{Operation, attach, detach_one, drop_whole, switch_active, operate}

abbrev pub peer_of : Operation → String
peer_of (attach p l hint fresh) = p
peer_of (detach_one p id) = p
peer_of (drop_whole p) = p
peer_of (switch_active p id) = p

module _ (m : SessionManager) (p q : String) (other : str_eq p q ≡ false) where
  frame_attach :
      (l : Link) (hint : Option (List ℕ)) (fresh : List ℕ) (o : Option Session)
      → lookup q (attach_to m p l hint fresh o).1.peers ≡ lookup q m.peers
  frame_attach l hint fresh none = ground (arith, other)
  frame_attach l hint fresh (some s) =
      ground (arith, lookup-replace q p (attach_existing s p l hint).1 m.peers, other)

  frame_detach :
      (id : String) (o : Option Session)
      → lookup q (detach_from m p id o).1.peers ≡ lookup q m.peers
  frame_detach id none = refl
  frame_detach id (some s) =
      ground (arith, lookup-replace q p (detach s p id) m.peers, lookup-delete q p m.peers, other)

  frame_switch :
      (id : String) (o : Option Session) → lookup q (switch_in m p id o).1.peers ≡ lookup q m.peers
  frame_switch id none = refl
  frame_switch id (some s) = ground (arith, lookup-replace q p (switch_to s p id) m.peers, other)

-- An operation on one peer leaves the session of every other peer as it was.
pub get-operate :
    (m : SessionManager) (o : Operation) (q : String)
    → str_eq (peer_of o) q ≡ false
    → get (operate m o) q ≡ get m q
unfolding get attach_link detach_link drop_peer switch_active_link
get-operate m (attach p l hint fresh) q h = frame_attach m p q h l hint fresh (get m p)
get-operate m (detach_one p id) q h = frame_detach m p q h id (get m p)
get-operate m (switch_active p id) q h = frame_switch m p q h id (get m p)
get-operate m (drop_whole p) q h = ground (arith, lookup-delete q p m.peers, h)

-- The session after a detach, where it stays.
abbrev pub after_detach : String → String → Option Session → Option Session
after_detach p id none = none
after_detach p id (some s) = some (if has_name id s.links then detach s p id else s)

abbrev pub Detached : SessionManager → String → String → Bool × SessionManager → Type 0
Detached m p id (true, t) =
    (get t p ≡ none)
    × ((s : Session) × (get m p ≡ some s)
        × (has_name id s.links ≡ true)
        × (remove_link id s.links ≡ []))
Detached m p id (false, t) = get t p ≡ after_detach p id (get m p)

is_empty-nil : (ls : List Link) → is_empty ls ≡ true → ls ≡ []
is_empty-nil [] h = refl
is_empty-nil (l ∷ ls) h = cc

module _ (m : SessionManager) (p id : String) where
  get-delete : get (record { peers = delete p m.peers }) p ≡ none
  unfolding get
  get-delete = ground (arith, lookup-delete p p m.peers, str_eq_refl p)

  detached-Detached :
      (s : Session)
      → get m p ≡ some s
      → has_name id s.links ≡ true
      → Detached m p id (detached m p (detach s p id))
  unfolding detach
  detached-Detached s e h = elim (Bool-cases (is_empty (remove_link id s.links))) [
    | inl f ↦ rw f (get-delete, (s, e, h, is_empty-nil (remove_link id s.links) f))
    | inr f ↦
        rw (f, e, h)
          (unfold get in
            ground (arith, lookup-replace p p (detach s p id) m.peers, str_eq_refl p, e))
  ]

  detach_from-Detached : (o : Option Session) → get m p ≡ o → Detached m p id (detach_from m p id o)
  detach_from-Detached none e = rw e refl
  detach_from-Detached (some s) e = elim (Bool-cases (has_name id s.links)) [
    | inl h ↦ rw h (detached-Detached s e h)
    | inr h ↦ rw (h, e, h) refl
  ]

  -- Where a detach answers yes, it took the last link of the peer, who is then gone. Where it answers
  -- no, the peer is as before but for that link, if it was there.
  pub detach_link-Detached : Detached m p id (detach_link m p id)
  unfolding detach_link
  detach_link-Detached = detach_from-Detached (get m p) refl
