-- ===== src/Scanner/Loop.antt =====
-- The loop of scans, as long as nobody asks to forget a peer.
use mlink.Prelude.{
  ℕ, zero, suc, ◌≡◌, refl, sym, ap, ◌∙◌, String, List, [], ◌∷◌, ◌++◌, Bool, true, false, Option,
  none, some, All, All-append, Distinct, Distinct-before, Bool-cases, inl, inr,
}
use mathlib.Core.Path.{subst}
use mathlib.Core.List.{append_assoc, append-nil}
use mlink.Protocol.Errors.{Result, ok, err}
use mlink.Transport.{DiscoveredPeer}
use mlink.Scanner.{
  passes, discover_once, Round, LoopState, send_all, round_sent, round_found, discover_round,
  unless_returned, discover_loop,
}
use mlink.Scanner.Rounds.{ids, ids-append, at, discover_once-fresh}

-- What was taken is the beginning of what was offered, and all of it unless the receiver went.
send_all-rest :
    (takes : Option ℕ) (peers : List DiscoveredPeer)
    → (rest : List DiscoveredPeer) × ((send_all takes peers).0 ++ rest ≡ peers)
      × ((send_all takes peers).1 ≡ true → rest ≡ [])
send_all-rest none peers = ([], append-nil peers, λ e. refl)
send_all-rest (some n) [] = ([], refl, λ e. refl)
send_all-rest (some zero) (p ∷ peers) = (p ∷ peers, refl, λ e. cc)
send_all-rest (some (suc n)) (p ∷ peers) =
    let (rest, e, k) = send_all-rest (some n) peers in (rest, ap (λ t. p ∷ t) e, k)

All-before {ℓ κ} : {A : Type ℓ} (P : A → Type κ) (xs ys : List A) → All P (xs ++ ys) → All P xs
All-before P [] ys h = tt
All-before P (x ∷ xs) ys h = (h.0, All-before P xs ys h.1)

module _ (app_uuid : String) (hashes : List (List ℕ)) where
  abbrev pub LetPass : DiscoveredPeer → Type 0
  LetPass p = passes (at app_uuid hashes []) p ≡ true

  pub record Fresh (st : LoopState) : Type 0 where
    pub at_work : st.returned ≡ none → st.scanner ≡ at app_uuid hashes (ids st.sent)
    pub distinct : Distinct (ids st.sent)
    pub pass : All LetPass st.sent

  sent-Fresh :
      (before fresh sent rest : List DiscoveredPeer) (all_taken : Bool)
      → sent ++ rest ≡ fresh
      → (all_taken ≡ true → rest ≡ [])
      → Distinct (ids before ++ ids fresh)
      → All LetPass before
      → All LetPass fresh
      → Fresh (round_sent (at app_uuid hashes (ids before ++ ids fresh)) before (sent, all_taken))
  sent-Fresh before fresh sent rest true e none_left d k l =
      let same : fresh ≡ sent = sym e ∙ ap (λ t. sent ++ t) (none_left refl) ∙ append-nil sent in
      let names : ids before ++ ids fresh ≡ ids (before ++ sent) =
        ap (λ t. ids before ++ ids t) same ∙ sym (ids-append before sent) in
      record {
        at_work = λ h. ap (at app_uuid hashes) names;
        distinct = subst Distinct names d;
        pass = All-append LetPass before sent k (subst (All LetPass) same l);
      }
  sent-Fresh before fresh sent rest false e none_left d k l =
      let names : ids before ++ ids fresh ≡ (ids before ++ ids sent) ++ ids rest =
        ap (λ t. ids before ++ ids t) (sym e)
        ∙ ap (λ t. ids before ++ t) (ids-append sent rest)
        ∙ sym (append_assoc (ids before) (ids sent) (ids rest)) in
      record {
        at_work = λ h. cc;
        distinct =
            subst Distinct (sym (ids-append before sent))
              (Distinct-before (ids before ++ ids sent) (ids rest) (subst Distinct names d));
        pass =
            All-append LetPass before sent k
              (All-before LetPass sent rest (subst (All LetPass) (sym e) l));
      }

  found-Fresh :
      (before : List DiscoveredPeer) (takes : Option ℕ) (found : Result (List DiscoveredPeer))
      → Distinct (ids before)
      → All LetPass before
      → Fresh (round_found takes before (discover_once (at app_uuid hashes (ids before)) found))
  unfolding discover_once
  found-Fresh before takes (err x) d k = record { at_work = λ h. cc; distinct = d; pass = k }
  found-Fresh before takes (ok all) d k =
      let (fresh, e, d', l, _) = discover_once-fresh (at app_uuid hashes (ids before)) all d in
      let (rest, e', none_left) = send_all-rest takes fresh in
      subst (λ r. Fresh (round_found takes before r)) (sym e)
        (sent-Fresh before fresh (send_all takes fresh).0 rest (send_all takes fresh).1 e' none_left
          d' k l)

  round-Fresh :
      (before : List DiscoveredPeer) (r : Round)
      → r.forgotten ≡ []
      → Distinct (ids before)
      → All LetPass before
      → Fresh (discover_round (at app_uuid hashes (ids before)) before r)
  unfolding discover_round
  round-Fresh before r e d k = elim (Bool-cases r.closed) [
    | inl gone ↦ rw (e, gone) (record { at_work = λ h. cc; distinct = d; pass = k })
    | inr there ↦ rw (e, there) (found-Fresh before r.takes r.found d k)
  ]

  running :
      (st rest : LoopState) (o : Option (Result (Unit {0})))
      → (o ≡ none → Fresh rest)
      → Fresh st
      → Fresh (unless_returned st rest o)
  running st rest none go f = go refl
  running st rest (some x) go f = f

  loop-Fresh :
      (st : LoopState) (rounds : List Round)
      → st.returned ≡ none
      → All (λ r. r.forgotten ≡ []) rounds
      → Fresh st
      → Fresh (discover_loop st rounds)
  unfolding discover_loop
  loop-Fresh st [] e q f = f
  loop-Fresh st (r ∷ rounds) e q f =
      let next = discover_round st.scanner st.sent r in
      let fresh : Fresh next =
        subst (λ s. Fresh (discover_round s st.sent r)) (sym (f.at_work e))
          (round-Fresh st.sent r q.0 f.distinct f.pass) in
      running next (discover_loop next rounds) next.returned
        (λ going. loop-Fresh next rounds going q.1 fresh) fresh

  abbrev pub start : LoopState
  start = record { returned = none; scanner = at app_uuid hashes []; sent = [] }

  -- As long as nobody asks to forget a peer, the loop sends each peer at most once, in whatever
  -- rounds it is found, and only peers that pass the filter; also when the receiver goes in the middle
  -- of a round, or a scan fails.
  pub discover_loop-Distinct :
      (rounds : List Round)
      → All (λ r. r.forgotten ≡ []) rounds
      → Distinct (ids (discover_loop start rounds).sent)
        × All LetPass (discover_loop start rounds).sent
  discover_loop-Distinct rounds q =
      let f =
        loop-Fresh start rounds refl q (record { at_work = λ h. refl; distinct = tt; pass = tt }) in
      (f.distinct, f.pass)
