-- ===== src/Scanner.antt =====
-- crates/mlink-core/src/core/scanner.rs: which of the discovered peers are new, and the loop that
-- hands them on.
-- What the transport finds in a round comes in from outside; so do the requests to forget a peer, and
-- what the receiver of the peers does.
pub mod Windows
pub mod Filter
pub mod Rounds
pub mod Loop
mod Tests
use mlink.Prelude.{
  ℕ, zero, suc, String, List, [], ◌∷◌, ◌++◌, Bool, true, false, ◌&&◌, not, Option, none, some,
  if◌then◌else◌, ltb, length, any, str_eq, member, add_member, drop_member,
}
use mlink.Protocol.Errors.{Result, ok, err}
use mlink.Session.Manager.{bytes_eq}
use mlink.Transport.{DiscoveredPeer}
use mlink.Scanner.Windows.{windows}

pub record Scanner : Type 0 where
  pub app_uuid : String
  pub seen : List String
  pub room_hashes : List (List ℕ)

unfoldable pub new_scanner : String → Scanner
new_scanner app_uuid = record { app_uuid = app_uuid; seen = []; room_hashes = [] }

unfoldable pub unsee : Scanner → String → Scanner
unsee s id = record s { seen = drop_member id s.seen }

unfoldable pub set_room_hashes : Scanner → List (List ℕ) → Scanner
set_room_hashes s hashes = record s { room_hashes = hashes }

unfoldable pub reset : Scanner → Scanner
reset s = record s { seen = [] }

unfoldable pub seen_count : Scanner → ℕ
seen_count s = length s.seen

abbrev pub is_empty {ℓ} : {A : Type ℓ} → List A → Bool
is_empty [] = true
is_empty (x ∷ xs) = false

unfoldable pub metadata_matches_any_room : List ℕ → List (List ℕ) → Bool
metadata_matches_any_room metadata hashes =
    if is_empty hashes
    then true
    else if is_empty metadata
    then true
    else if ltb (length metadata) 8
    then false
    else any (λ h. any (λ w. bytes_eq w h) (windows 8 metadata)) hashes

abbrev pub passes : Scanner → DiscoveredPeer → Bool
passes s peer =
    not (str_eq peer.id s.app_uuid) && metadata_matches_any_room peer.metadata s.room_hashes

-- The loop over what was found: the fresh peers so far, and the scanner.
unfoldable pub sift :
    Scanner → List DiscoveredPeer → List DiscoveredPeer → List DiscoveredPeer × Scanner
sift s fresh [] = (fresh, s)
sift s fresh (peer ∷ all) =
    let later = sift s fresh all in
    let noted = sift (record s { seen = add_member peer.id s.seen }) (fresh ++ (peer ∷ [])) all in
    if not (passes s peer) then later else if member peer.id s.seen then later else noted

abbrev sifted : Scanner → Result (List DiscoveredPeer) → Result (List DiscoveredPeer) × Scanner
unfolding sift
sifted s (err e) = (err e, s)
sifted s (ok all) = let (fresh, s') = sift s [] all in (ok fresh, s')

unfoldable pub discover_once :
    Scanner → Result (List DiscoveredPeer) → Result (List DiscoveredPeer) × Scanner
unfolding sifted
discover_once s found = sifted s found

-- One turn of the loop: the requests to forget that are there, whether the receiver is gone when the
-- clock ticks, what is found, and how many peers the receiver takes before it goes.
pub record Round : Type 0 where
  pub forgotten : List String
  pub closed : Bool
  pub found : Result (List DiscoveredPeer)
  pub takes : Option ℕ

abbrev pub forget_all : Scanner → List String → Scanner
unfolding unsee
forget_all s [] = s
forget_all s (id ∷ ids) = forget_all (unsee s id) ids

-- The peers that are sent, and whether all were taken.
abbrev pub send_all : Option ℕ → List DiscoveredPeer → List DiscoveredPeer × Bool
send_all none peers = (peers, true)
send_all (some n) [] = ([], true)
send_all (some zero) (p ∷ peers) = ([], false)
send_all (some (suc n)) (p ∷ peers) = let (sent, all) = send_all (some n) peers in (p ∷ sent, all)

-- `none` as long as the loop has not returned.
pub record LoopState : Type 0 where
  pub returned : Option (Result (Unit {0}))
  pub scanner : Scanner
  pub sent : List DiscoveredPeer

abbrev round_sent : Scanner → List DiscoveredPeer → List DiscoveredPeer × Bool → LoopState
round_sent s before (sent, true) = record { returned = none; scanner = s; sent = before ++ sent }
round_sent s before (sent, false) = record {
  returned = some (ok tt);
  scanner = s;
  sent = before ++ sent;
}

abbrev round_found :
    Option ℕ → List DiscoveredPeer → Result (List DiscoveredPeer) × Scanner → LoopState
round_found takes before (err e, s) = record { returned = some (err e); scanner = s; sent = before }
round_found takes before (ok fresh, s) = round_sent s before (send_all takes fresh)

unfoldable pub discover_round : Scanner → List DiscoveredPeer → Round → LoopState
unfolding forget_all discover_once
discover_round s before r =
    let s' = forget_all s r.forgotten in
    if r.closed
    then record { returned = some (ok tt); scanner = s'; sent = before }
    else round_found r.takes before (discover_once s' r.found)

abbrev pub unless_returned : LoopState → LoopState → Option (Result (Unit {0})) → LoopState
unless_returned st rest none = rest
unless_returned st rest (some r) = st

abbrev pub while_running : LoopState → LoopState → LoopState
while_running st rest = unless_returned st rest st.returned

-- `discover_loop` over the rounds that have passed.
unfoldable pub discover_loop : LoopState → List Round → LoopState
unfolding discover_round
discover_loop st [] = st
discover_loop st (r ∷ rounds) =
    let next = discover_round st.scanner st.sent r in while_running next (discover_loop next rounds)
