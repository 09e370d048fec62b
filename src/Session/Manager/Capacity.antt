-- ===== src/Session/Manager/Capacity.antt =====
-- What holds of every session in the table, whatever is attached, detached or dropped.
use mlink.Prelude.{
  ℕ, ◌+◌, ◌<◌, ◌≤◌, ◌≡◌, refl, arith, String, List, [], ◌∷◌, ◌++◌, Bool, true, false, Option, none,
  some, leb, any, str_eq, eq_iff, length, Bool-cases, inl, inr,
}
use mlink.Link.{Link, TransportKind}
use mlink.Session.State.{Session, max_links_per_peer}
use mlink.Session.Manager.{kind_eq, mismatch, attach_existing, first_session, is_empty}

abbrev pub has_kind : TransportKind → List Link → Bool
has_kind k ls = any (λ l. kind_eq l.kind k) ls

abbrev pub has_name : String → List Link → Bool
has_name id ls = any (λ l. str_eq l.id id) ls

abbrev pub DistinctKinds : List Link → Type 0
DistinctKinds [] = Unit
DistinctKinds (l ∷ ls) = (has_kind l.kind ls ≡ false) × DistinctKinds ls

abbrev pub NamesLink : Option String → List Link → Type 0
NamesLink none ls = Unit
NamesLink (some id) ls = has_name id ls ≡ true

-- At least one link and at most four, no two of the same transport, and the active one among them.
pub record IsSession (s : Session) : Type 0 where
  pub some_link : is_empty s.links ≡ false
  pub links_le : length s.links ≤ max_links_per_peer
  pub kinds : DistinctKinds s.links
  pub active : NamesLink s.active s.links

kind_eq_sym : (a b : TransportKind) → kind_eq a b ≡ kind_eq b a
kind_eq_sym a b = ground arith

has_kind-append :
    (k : TransportKind) (ls : List Link) (l : Link)
    → has_kind k ls ≡ false
    → kind_eq l.kind k ≡ false
    → has_kind k (ls ++ (l ∷ [])) ≡ false
has_kind-append k [] l h e = ground arith
has_kind-append k (x ∷ ls) l h e = ground (arith, has_kind-append k ls l)

append-DistinctKinds :
    (ls : List Link) (l : Link)
    → DistinctKinds ls
    → has_kind l.kind ls ≡ false
    → DistinctKinds (ls ++ (l ∷ []))
append-DistinctKinds [] l h e = (refl, tt)
append-DistinctKinds (x ∷ ls) l h e = (
  has_kind-append x.kind ls l h.0 (ground (arith, e, kind_eq_sym l.kind x.kind)),
  append-DistinctKinds ls l h.1 (ground (arith, e)),
)

has_name-append :
    (id : String) (ls ks : List Link) → has_name id ls ≡ true → has_name id (ls ++ ks) ≡ true
has_name-append id [] ks h = cc
has_name-append id (l ∷ ls) ks h = ground (arith, has_name-append id ls ks)

append-NamesLink : (o : Option String) (ls ks : List Link) → NamesLink o ls → NamesLink o (ls ++ ks)
append-NamesLink none ls ks h = tt
append-NamesLink (some id) ls ks h = has_name-append id ls ks h

append-is_empty : (ls : List Link) (l : Link) → is_empty (ls ++ (l ∷ [])) ≡ false
append-is_empty [] l = refl
append-is_empty (x ∷ ls) l = refl

length-append_one : (ls : List Link) (l : Link) → length (ls ++ (l ∷ [])) ≡ length ls + 1
length-append_one [] l = refl
length-append_one (x ∷ ls) l = omega (arith, length-append_one ls l)

attached-IsSession :
    (s : Session) (l : Link)
    → IsSession s
    → length s.links < max_links_per_peer
    → has_kind l.kind s.links ≡ false
    → (t : Session) → t.links ≡ s.links ++ (l ∷ [])
    → t.active ≡ s.active
    → IsSession t
attached-IsSession s l w room new t q a = record {
  some_link = rw q (append-is_empty s.links l);
  links_le = rw (q, length-append_one s.links l) (omega arith);
  kinds = rw q (append-DistinctKinds s.links l w.kinds new);
  active = rw (q, a) (append-NamesLink s.active s.links (l ∷ []) w.active);
}

pub attach_existing-IsSession :
    (s : Session) (p : String) (l : Link) (hint : Option (List ℕ))
    → IsSession s
    → IsSession (attach_existing s p l hint).1
unfolding attach_existing
attach_existing-IsSession s p l hint w = elim (Bool-cases (mismatch hint s.session_id)) [
  | inl e ↦ rw e w
  | inr e ↦ rw e (elim (Bool-cases (leb max_links_per_peer (length s.links))) [
    | inl f ↦ rw f w
    | inr f ↦ rw f (elim (Bool-cases (has_kind l.kind s.links)) [
      | inl g ↦ rw g w
      | inr g ↦ rw g (attached-IsSession s l w (ground (arith, f)) g _ refl refl)
    ])
  ])
]

pub first_session-IsSession :
    (p : String) (id : List ℕ) (l : Link) → IsSession (first_session p id l)
unfolding first_session
first_session-IsSession p id l = record {
  some_link = refl;
  links_le = ground arith;
  kinds = (refl, tt);
  active = ground (arith, eq_iff l.id l.id);
}
