-- ===== src/Scanner/Rounds.antt =====
-- Which peers a scan hands on.
use mlink.Prelude.{
  ℕ, ◌≡◌, refl, sym, ap, ◌∙◌, arith, String, List, [], ◌∷◌, ◌++◌, map, Bool, true, ◌||◌, ◌&&◌, any,
  str_eq, member, member_same, member-append, All, All-append, Distinct, Distinct-snoc, Bool-cases,
  inl, inr,
}
use mathlib.Core.List.{append_assoc, append-nil}
use mlink.Protocol.Errors.{ok}
use mlink.Transport.{DiscoveredPeer}
use mlink.Scanner.{Scanner, passes, sift, discover_once}

abbrev pub ids : List DiscoveredPeer → List String
ids peers = map (λ p. p.id) peers

-- The scanner after a scan, by what it has seen.
abbrev pub with_seen : Scanner → List String → Scanner
with_seen s seen = record s { seen = seen }

pub ids-append : (xs ys : List DiscoveredPeer) → ids (xs ++ ys) ≡ ids xs ++ ids ys
ids-append [] ys = refl
ids-append (x ∷ xs) ys = ap (λ t. x.id ∷ t) (ids-append xs ys)

module _ (app_uuid : String) (hashes : List (List ℕ)) where
  abbrev pub at : List String → Scanner
  at seen = record { app_uuid = app_uuid; seen = seen; room_hashes = hashes }

  -- What is known of the fresh peers so far, `fresh`, when the set was `old` at the start.
  pub record Sifted (old : List String) (all : List DiscoveredPeer) (start : List String)
      (r : List DiscoveredPeer × Scanner) : Type 0 where
    pub scanner_eq : r.1 ≡ at (old ++ ids r.0)
    pub distinct : Distinct (old ++ ids r.0)
    pub pass : All (λ p. passes (at []) p ≡ true) r.0
    pub complete :
        (j : String)
        → member j (old ++ ids r.0)
          ≡ (member j start || any (λ p. passes (at []) p && str_eq p.id j) all)

  abbrev pub named : String → List DiscoveredPeer → Bool
  named j all = any (λ p. passes (at []) p && str_eq p.id j) all

  widen :
      (old start start' : List String) (peer : DiscoveredPeer) (all : List DiscoveredPeer)
      (r : List DiscoveredPeer × Scanner)
      → ((j : String) → (member j start' || named j all) ≡ (member j start || named j (peer ∷ all)))
      → Sifted old all start' r
      → Sifted old (peer ∷ all) start r
  widen old start start' peer all r e s = record {
    scanner_eq = s.scanner_eq;
    distinct = s.distinct;
    pass = s.pass;
    complete = λ j. s.complete j ∙ e j;
  }

  snoc_ids :
      (old : List String) (fresh : List DiscoveredPeer) (peer : DiscoveredPeer)
      → (old ++ ids fresh) ++ (peer.id ∷ []) ≡ old ++ ids (fresh ++ (peer ∷ []))
  snoc_ids old fresh peer =
      append_assoc old (ids fresh) (peer.id ∷ [])
      ∙ ap (λ t. old ++ t) (sym (ids-append fresh (peer ∷ [])))

  pub sift-Sifted :
      (old seen : List String) (fresh all : List DiscoveredPeer)
      → seen ≡ old ++ ids fresh
      → Distinct seen
      → All (λ p. passes (at []) p ≡ true) fresh
      → Sifted old all seen (sift (at seen) fresh all)
  unfolding sift
  sift-Sifted old seen fresh [] e d k = record {
    scanner_eq = ap at e;
    distinct = rw (← e) d;
    pass = k;
    complete = λ j. rw (← e) (ground arith);
  }
  sift-Sifted old seen fresh (peer ∷ all) e d k = elim (Bool-cases (passes (at []) peer)) [
    | inr fails ↦ rw fails (
        widen old seen seen peer all _ (λ j. ground (arith, fails))
          (sift-Sifted old seen fresh all e d k))
    | inl pass ↦ elim (Bool-cases (member peer.id seen)) [
      | inl known ↦
          rw (pass, known)
            (widen old seen seen peer all _
              (λ j. ground (arith, pass, known, member_same j peer.id seen))
              (sift-Sifted old seen fresh all e d k))
      | inr new ↦
          rw (pass, new)
            (widen old seen (seen ++ (peer.id ∷ [])) peer all _
              (λ j. ground (arith, pass, member-append j seen (peer.id ∷ [])))
              (sift-Sifted old (seen ++ (peer.id ∷ [])) (fresh ++ (peer ∷ [])) all
                (ap (λ t. t ++ (peer.id ∷ [])) e ∙ snoc_ids old fresh peer)
                (Distinct-snoc peer.id seen new d)
                (All-append (λ p. passes (at []) p ≡ true) fresh (peer ∷ []) k (pass, tt))))
    ]
  ]

pub discover_once-fresh :
    (s : Scanner) (all : List DiscoveredPeer)
    → Distinct s.seen
    → (fresh : List DiscoveredPeer) × (discover_once s (ok all)
        ≡ (ok fresh, with_seen s (s.seen ++ ids fresh)))
      × Distinct (s.seen ++ ids fresh)
      × All (λ p. passes s p ≡ true) fresh
      × ((j : String)
          → member j (s.seen ++ ids fresh)
            ≡ (member j s.seen || any (λ p. passes s p && str_eq p.id j) all))
unfolding discover_once
discover_once-fresh s all d =
    let r =
      sift-Sifted s.app_uuid s.room_hashes s.seen s.seen [] all (sym (append-nil s.seen)) d tt in
    (
      (sift s [] all).0,
      ap (λ s'. (ok (sift s [] all).0, s')) r.scanner_eq,
      r.distinct,
      r.pass,
      r.complete,
    )
