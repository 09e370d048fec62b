-- ===== src/Session/Manager/Lookup.antt =====
-- What an attach answers, and that operations on one peer leave the others alone.
use mlink.Prelude.{
  lookup, lookup-replace, replace, str_eq_refl, ℕ, ◌<◌, ◌≤◌, ◌≡◌, refl, arith, ◌⊎◌, String, List,
  [], ◌∷◌, ◌++◌, true, false, Option, none, some, leb, eq_iff, length, Bool-cases, inl, inr,
}
use mlink.Link.{Link}
use mlink.Session.State.{Session, max_links_per_peer, link_added, emit}
use mlink.Session.Manager.{
  AttachOutcome, created_new, attached_existing, rejected_capacity, rejected_duplicate_kind,
  rejected_session_mismatch, SessionManager, get, mismatch, hinted, attach_existing, first_session,
  attach_to, attach_link,
}
use mlink.Session.Manager.Capacity.{has_kind}
use mlink.Session.Manager.Hints.{bytes_eq_iff}

-- No hint, or the identifier itself.
abbrev pub Fits : Option (List ℕ) → List ℕ → Type 0
Fits none id = Unit
Fits (some hint) id = hint ≡ id

abbrev pub Attached :
    SessionManager
    → String
    → Link
    → Option (List ℕ)
    → List ℕ
    → AttachOutcome × SessionManager
    → Type 0
Attached m p l hint fresh (created_new id, t) =
    (get m p ≡ none)
    × (hinted hint ≡ false)
    × (id ≡ fresh)
    × (get t p ≡ some (first_session p fresh l))
Attached m p l hint fresh (attached_existing, t) =
    (s : Session) × (get m p ≡ some s)
    × Fits hint s.session_id
    × (length s.links < max_links_per_peer)
    × (has_kind l.kind s.links ≡ false)
    × (get t p ≡ some (emit (record s { links = s.links ++ (l ∷ []) }) (link_added p l.id l.kind)))
Attached m p l hint fresh (rejected_session_mismatch, t) =
    ((q : String) → get t q ≡ get m q)
    × (((get m p ≡ none) × (hinted hint ≡ true))
        ⊎ ((s : Session) × (get m p ≡ some s) × (Fits hint s.session_id → ⊥)))
Attached m p l hint fresh (rejected_capacity, t) =
    ((q : String) → get t q ≡ get m q)
    × ((s : Session) × (get m p ≡ some s)
        × Fits hint s.session_id
        × (max_links_per_peer ≤ length s.links))
Attached m p l hint fresh (rejected_duplicate_kind, t) =
    ((q : String) → get t q ≡ get m q)
    × ((s : Session) × (get m p ≡ some s)
        × Fits hint s.session_id
        × (length s.links < max_links_per_peer)
        × (has_kind l.kind s.links ≡ true))

Fits-mismatch : (hint : Option (List ℕ)) (id : List ℕ) → mismatch hint id ≡ true → Fits hint id → ⊥
Fits-mismatch none id h f = cc
Fits-mismatch (some x) id h f = absurd (ground (arith, h, (bytes_eq_iff x id).1 f))

mismatch-Fits : (hint : Option (List ℕ)) (id : List ℕ) → mismatch hint id ≡ false → Fits hint id
mismatch-Fits none id h = tt
mismatch-Fits (some x) id h = (bytes_eq_iff x id).0 (ground (arith, h))

module _ (m : SessionManager) (p : String) (l : Link) (hint : Option (List ℕ))
    (fresh : List ℕ) where
  put_back :
      (s : Session) → get m p ≡ some s → (q : String) → lookup q (replace p s m.peers) ≡ get m q
  unfolding get
  put_back s e q = ground (arith, lookup-replace q p s m.peers, eq_iff p q, e)

  get-replace :
      (s t : Session) → get m p ≡ some s → get (record { peers = replace p t m.peers }) p ≡ some t
  unfolding get
  get-replace s t e = ground (arith, lookup-replace p p t m.peers, str_eq_refl p, e)

  attach_to-Attached :
      (o : Option Session) → get m p ≡ o → Attached m p l hint fresh (attach_to m p l hint fresh o)
  unfolding attach_existing get
  attach_to-Attached (some s) e = elim (Bool-cases (mismatch hint s.session_id)) [
    | inl a ↦ rw a (put_back s e, inr (s, e, Fits-mismatch hint s.session_id a))
    | inr a ↦ rw a (elim (Bool-cases (leb max_links_per_peer (length s.links))) [
      | inl b ↦ rw b (put_back s e, (s, e, mismatch-Fits hint s.session_id a, ground (arith, b)))
      | inr b ↦ rw b (elim (Bool-cases (has_kind l.kind s.links)) [
        | inl c ↦
            rw c (put_back s e, (s, e, mismatch-Fits hint s.session_id a, ground (arith, b), c))
        | inr c ↦
            rw c (s, e, mismatch-Fits hint s.session_id a, ground (arith, b), c, get-replace s _ e)
      ])
    ])
  ]
  attach_to-Attached none e = elim (Bool-cases (hinted hint)) [
    | inl a ↦ rw a ((λ q. refl), inl (e, a))
    | inr a ↦ rw a (e, a, refl, rw (str_eq_refl p))
  ]

  -- An attach makes a session for a peer that is not there and a link without a hint. To the session
  -- that is there it adds the link, if the hint is its identifier or there is none, a place is free,
  -- and no link is of the same transport. Else every session is as it was, and the answer is the first
  -- of these conditions that does not hold: a session mismatch is a hint for a peer that is not
  -- there or one that is not the session's identifier.
  pub attach_link-Attached : Attached m p l hint fresh (attach_link m p l hint fresh)
  unfolding attach_link
  attach_link-Attached = attach_to-Attached (get m p) refl
