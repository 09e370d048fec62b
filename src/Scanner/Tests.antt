-- ===== src/Scanner/Tests.antt =====
-- A scanner set to one room: crates/mlink-core/src/core/scanner.rs.
use mlink.Prelude.{
  ◌≡◌, ◌↔◌, refl, String, List, [], ◌∷◌, ◌++◌, none, some, true, false, All, Distinct, ℕ,
}
use mlink.Protocol.Errors.{ok, err, timeout}
use mlink.Transport.{DiscoveredPeer}
use mlink.Scanner.{
  Scanner, new_scanner, set_room_hashes, metadata_matches_any_room, discover_once, Round,
  discover_loop,
}
use mlink.Scanner.Windows.{windows}
use mlink.Scanner.Filter.{LetsPass, metadata_matches_any_room_iff}
use mlink.Scanner.Rounds.{ids, with_seen}
use mlink.Scanner.Loop.{LetPass, start, discover_loop-Distinct}

abbrev hash : List ℕ
hash = 1 ∷ 2 ∷ 3 ∷ 4 ∷ 5 ∷ 6 ∷ 7 ∷ 8 ∷ []

abbrev named : String → List ℕ → DiscoveredPeer
named id metadata = record { id = id; name = id; rssi = none; metadata = metadata }

abbrev scanner : Scanner
scanner = set_room_hashes (new_scanner "self") (hash ∷ [])

abbrev found : List DiscoveredPeer
found =
    named "self" hash
    ∷ named "a" (0 ∷ hash ++ (0 ∷ []))
    ∷ named "a" hash
    ∷ named "b" (9 ∷ 9 ∷ [])
    ∷ named "c" []
    ∷ []

fresh_of_found : discover_once scanner (ok found) ≡ (
  ok (named "a" (0 ∷ hash ++ (0 ∷ [])) ∷ named "c" [] ∷ []),
  with_seen scanner ("a" ∷ "c" ∷ []),
)
unfolding discover_once set_room_hashes new_scanner metadata_matches_any_room windows
fresh_of_found = refl

metadata_matches_any_room_iff_example :
    (metadata_matches_any_room (0 ∷ hash) (hash ∷ []) ≡ true) ↔ LetsPass (hash ∷ []) (0 ∷ hash)
metadata_matches_any_room_iff_example =
    metadata_matches_any_room_iff (0 ∷ hash) (hash ∷ []) (refl, tt)

abbrev rounds : List Round
rounds =
    record { forgotten = []; closed = false; found = ok found; takes = none }
    ∷ record { forgotten = []; closed = false; found = ok (named "d" [] ∷ found); takes = some 0 }
    ∷ record { forgotten = []; closed = false; found = err timeout; takes = none }
    ∷ []

discover_loop-Distinct_example :
    Distinct (ids (discover_loop (start "self" (hash ∷ [])) rounds).sent)
    × All (LetPass "self" (hash ∷ [])) (discover_loop (start "self" (hash ∷ [])) rounds).sent
discover_loop-Distinct_example =
    discover_loop-Distinct "self" (hash ∷ []) rounds (refl, (refl, (refl, tt)))
