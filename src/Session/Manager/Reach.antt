-- ===== src/Session/Manager/Reach.antt =====
-- Every table of sessions that operations can reach.
use mlink.Prelude.{
  delete, lookup, replace, ℕ, ◌≤◌, ◌≡◌, refl, arith, String, List, [], ◌∷◌, true, false, Option,
  none, some, str_eq, eq_iff, length, Bool-cases, inl, inr,
}
use mlink.Link.{Link, TransportKind}
use mlink.Session.State.{Session}
use mlink.Session.Manager.{
  switch_to, switch_in, switch_active_link, is_now, SessionManager, new_manager, get, hinted,
  attach_existing, attach_to, attach_link, drop_peer, remove_link, unless_active, detach, is_empty,
  detach_from, detach_link,
}
use mlink.Session.Manager.Capacity.{
  IsSession, has_kind, has_name, DistinctKinds, NamesLink, attach_existing-IsSession,
  first_session-IsSession,
}

length-remove_link : (id : String) (ls : List Link) → length (remove_link id ls) ≤ length ls
length-remove_link id [] = omega arith
length-remove_link id (l ∷ ls) = ground (arith, length-remove_link id ls)

has_kind-remove_link :
    (k : TransportKind) (id : String) (ls : List Link)
    → has_kind k ls ≡ false
    → has_kind k (remove_link id ls) ≡ false
has_kind-remove_link k id [] h = refl
has_kind-remove_link k id (l ∷ ls) h = ground (arith, has_kind-remove_link k id ls)

remove_link-DistinctKinds :
    (id : String) (ls : List Link) → DistinctKinds ls → DistinctKinds (remove_link id ls)
remove_link-DistinctKinds id [] h = tt
remove_link-DistinctKinds id (l ∷ ls) h = elim (Bool-cases (str_eq l.id id)) [
  | inl e ↦ rw e h.1
  | inr e ↦ rw e (has_kind-remove_link l.kind id ls h.0, remove_link-DistinctKinds id ls h.1)
]

has_name-remove_link :
    (a id : String) (ls : List Link)
    → str_eq a id ≡ false
    → has_name a ls ≡ true
    → has_name a (remove_link id ls) ≡ true
has_name-remove_link a id [] n h = cc
has_name-remove_link a id (l ∷ ls) n h =
    ground (arith, has_name-remove_link a id ls n, eq_iff l.id id, eq_iff l.id a, eq_iff a id)

remove_link-NamesLink :
    (o : Option String) (id : String) (ls : List Link)
    → NamesLink o ls
    → NamesLink (unless_active id o) (remove_link id ls)
remove_link-NamesLink none id ls h = tt
remove_link-NamesLink (some a) id ls h = elim (Bool-cases (str_eq a id)) [
  | inl e ↦ rw e tt
  | inr e ↦ rw e (has_name-remove_link a id ls e h)
]

detach-IsSession :
    (s : Session) (p id : String)
    → IsSession s
    → is_empty (detach s p id).links ≡ false
    → IsSession (detach s p id)
unfolding detach
detach-IsSession s p id w h = record {
  some_link = h;
  links_le = omega (arith, length-remove_link id s.links, w.links_le);
  kinds = remove_link-DistinctKinds id s.links w.kinds;
  active = remove_link-NamesLink s.active id s.links w.active;
}

-- All sessions of the table are well-formed, and no peer is there twice.
abbrev pub IsTable : List (String × Session) → Type 0
IsTable [] = Unit
IsTable ((k, s) ∷ m) = IsSession s × (lookup k m ≡ none) × IsTable m

lookup-IsSession :
    (k : String) (m : List (String × Session)) (s : Session)
    → IsTable m
    → lookup k m ≡ some s
    → IsSession s
lookup-IsSession k [] s w h = cc
lookup-IsSession k ((j, t) ∷ m) s w h = elim (Bool-cases (str_eq j k)) [
  | inl e ↦ let q : some t ≡ some s = rw e at h in let r : t ≡ s = cc in rw (← r) w.0
  | inr e ↦ lookup-IsSession k m s w.2 (rw e at h)
]

lookup-replace-none :
    (j k : String) (t : Session) (m : List (String × Session))
    → lookup j m ≡ none
    → lookup j (replace k t m) ≡ none
lookup-replace-none j k t [] h = refl
lookup-replace-none j k t ((i, s) ∷ m) h = ground (arith, lookup-replace-none j k t m)

replace-IsTable :
    (k : String) (t : Session) (m : List (String × Session))
    → IsSession t
    → IsTable m
    → IsTable (replace k t m)
replace-IsTable k t [] h w = tt
replace-IsTable k t ((j, s) ∷ m) h w = elim (Bool-cases (str_eq j k)) [
  | inl e ↦ rw e (h, w.1, w.2)
  | inr e ↦ rw e (w.0, lookup-replace-none j k t m w.1, replace-IsTable k t m h w.2)
]

lookup-delete-none :
    (j k : String) (m : List (String × Session)) → lookup j m ≡ none → lookup j (delete k m) ≡ none
lookup-delete-none j k [] h = refl
lookup-delete-none j k ((i, s) ∷ m) h = ground (arith, lookup-delete-none j k m)

delete-IsTable : (k : String) (m : List (String × Session)) → IsTable m → IsTable (delete k m)
delete-IsTable k [] w = tt
delete-IsTable k ((j, s) ∷ m) w = elim (Bool-cases (str_eq j k)) [
  | inl e ↦ rw e (delete-IsTable k m w.2)
  | inr e ↦ rw e (w.0, lookup-delete-none j k m w.1, delete-IsTable k m w.2)
]

attach_to-IsTable :
    (m : SessionManager) (p : String) (l : Link) (hint : Option (List ℕ)) (fresh : List ℕ)
    (o : Option Session)
    → lookup p m.peers ≡ o
    → IsTable m.peers
    → IsTable (attach_to m p l hint fresh o).1.peers
attach_to-IsTable m p l hint fresh (some s) e w =
    replace-IsTable p (attach_existing s p l hint).1 m.peers
      (attach_existing-IsSession s p l hint (lookup-IsSession p m.peers s w e)) w
attach_to-IsTable m p l hint fresh none e w = elim (Bool-cases (hinted hint)) [
  | inl h ↦ rw h w
  | inr h ↦ rw h (first_session-IsSession p fresh l, e, w)
]

detach_from-IsTable :
    (m : SessionManager) (p id : String) (o : Option Session)
    → lookup p m.peers ≡ o
    → IsTable m.peers
    → IsTable (detach_from m p id o).1.peers
detach_from-IsTable m p id none e w = w
detach_from-IsTable m p id (some s) e w = elim (Bool-cases (has_name id s.links)) [
  | inr h ↦ rw h w
  | inl h ↦ rw h (elim (Bool-cases (is_empty (detach s p id).links)) [
    | inl f ↦ rw f (delete-IsTable p m.peers w)
    | inr f ↦ rw f (
        replace-IsTable p (detach s p id) m.peers
          (detach-IsSession s p id (lookup-IsSession p m.peers s w e) f) w)
  ])
]

switch_to-IsSession :
    (s : Session) (p id : String)
    → has_name id s.links ≡ true
    → IsSession s
    → IsSession (switch_to s p id)
unfolding switch_to
switch_to-IsSession s p id h w = elim (Bool-cases (is_now s.active id)) [
  | inl e ↦
      rw e (record { some_link = w.some_link; links_le = w.links_le; kinds = w.kinds; active = h })
  | inr e ↦
      rw e (record { some_link = w.some_link; links_le = w.links_le; kinds = w.kinds; active = h })
]

switch_in-IsTable :
    (m : SessionManager) (p id : String) (o : Option Session)
    → lookup p m.peers ≡ o
    → IsTable m.peers
    → IsTable (switch_in m p id o).1.peers
switch_in-IsTable m p id none e w = w
switch_in-IsTable m p id (some s) e w = elim (Bool-cases (has_name id s.links)) [
  | inl h ↦ rw h (
      replace-IsTable p (switch_to s p id) m.peers
        (switch_to-IsSession s p id h (lookup-IsSession p m.peers s w e)) w)
  | inr h ↦ rw h w
]

-- The operations of the table that change it.
pub data Operation : Type 0 where
  attach : String → Link → Option (List ℕ) → List ℕ → Operation
  detach_one : String → String → Operation
  drop_whole : String → Operation
  switch_active : String → String → Operation

abbrev pub operate : SessionManager → Operation → SessionManager
operate m (attach p l hint fresh) = (attach_link m p l hint fresh).1
operate m (detach_one p id) = (detach_link m p id).1
operate m (drop_whole p) = (drop_peer m p).1
operate m (switch_active p id) = (switch_active_link m p id).1

abbrev pub operate_all : SessionManager → List Operation → SessionManager
operate_all m [] = m
operate_all m (o ∷ os) = operate_all (operate m o) os

operate-IsTable :
    (m : SessionManager) (o : Operation) → IsTable m.peers → IsTable (operate m o).peers
unfolding attach_link detach_link drop_peer switch_active_link get
operate-IsTable m (attach p l hint fresh) w =
    attach_to-IsTable m p l hint fresh (lookup p m.peers) refl w
operate-IsTable m (detach_one p id) w = detach_from-IsTable m p id (lookup p m.peers) refl w
operate-IsTable m (drop_whole p) w = delete-IsTable p m.peers w
operate-IsTable m (switch_active p id) w = switch_in-IsTable m p id (lookup p m.peers) refl w

operate_all-IsTable :
    (os : List Operation) (m : SessionManager) → IsTable m.peers → IsTable (operate_all m os).peers
operate_all-IsTable [] m w = w
operate_all-IsTable (o ∷ os) m w = operate_all-IsTable os (operate m o) (operate-IsTable m o w)

-- After any operations on an empty table, no peer is there twice, and every session has at least one
-- link and at most four, no two of one transport, and its active link, if it has one, is among them.
pub reached-IsTable : (os : List Operation) → IsTable (operate_all new_manager os).peers
reached-IsTable os = operate_all-IsTable os new_manager tt
