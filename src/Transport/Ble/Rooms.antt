-- ===== src/Transport/Ble/Rooms.antt =====
-- What the room filter of the scanner makes of a Bluetooth advertisement.
use mlink.Prelude.{
  ℕ, ◌≡◌, ◌↔◌, ◌⊎◌, inl, inr, refl, sym, ap, ◌∙◌, arith, List, [], ◌∷◌, ◌++◌, true, none, some,
  length, length-append, All, IsByte,
}
use mathlib.Core.List.{append-nil}
use mlink.Transport.Hex.{hex_encode, all_hexdigits}
use mlink.Transport.Hex.RoundTrip.{hex_decode_8-hex_encode, hex_encode-digits}
use mlink.Transport.Ble.{
  split_last_hash, suffix_read, parse_room_hash_from_name, Properties, find_identity, raw_name,
  described, describe,
}
use mlink.Scanner.{metadata_matches_any_room}
use mlink.Scanner.Windows.{Within}
use mlink.Scanner.Filter.{IsHash, AnyWithin, LetsPass, metadata_matches_any_room_iff}

-- A text of hexadecimal digits has no '#'.
no_hash_in : (s : List ℕ) → all_hexdigits s ≡ true → split_last_hash s ≡ none
unfolding split_last_hash
no_hash_in [] e = refl
no_hash_in (c ∷ cs) e = ground (arith, no_hash_in cs)

split-last :
    (base hex : List ℕ)
    → all_hexdigits hex ≡ true
    → split_last_hash (base ++ (35 ∷ hex)) ≡ some (base, hex)
unfolding split_last_hash
split-last [] hex e = rw (no_hash_in hex e) refl
split-last (x ∷ xs) hex e = rw (split-last xs hex e) refl

-- A name with the text of an eight-byte hash behind a last '#' is read back as the name and the
-- hash, also when the name has such signs of its own.
pub parse_room_hash_from_name-hex_encode :
    (base hash : List ℕ)
    → length hash ≡ 8
    → All IsByte hash
    → parse_room_hash_from_name (base ++ (35 ∷ hex_encode hash)) ≡ some (base, hash)
unfolding parse_room_hash_from_name suffix_read
parse_room_hash_from_name-hex_encode base hash e h =
    rw
      (
        split-last base (hex_encode hash) (hex_encode-digits hash h),
        (hex_decode_8-hex_encode hash e h).0,
      )
      refl

empty_of_length : (xs : List ℕ) → length xs ≡ 0 → xs ≡ []
empty_of_length [] e = refl
empty_of_length (x ∷ xs) e = absurd (omega arith)

Within-same : (h id : List ℕ) → length h ≡ length id → Within h id → h ≡ id
Within-same h id e (before, after, w) =
    let none_before : before ≡ [] =
      empty_of_length before
        (omega (arith, ap length w, length-append before (h ++ after), length-append h after, e)) in
    let none_after : after ≡ [] =
      empty_of_length after
        (omega (arith, ap length w, length-append before (h ++ after), length-append h after, e)) in
    sym (w ∙ ap (λ t. t ++ (h ++ after)) none_before ∙ ap (λ t. h ++ t) none_after ∙ append-nil h)

abbrev pub OneOf : List ℕ → List (List ℕ) → Type 0
OneOf id [] = ⊥
OneOf id (h ∷ hs) = (h ≡ id) ⊎ OneOf id hs

AnyWithin-OneOf :
    (id : List ℕ) (hs : List (List ℕ)) → IsHash id → All IsHash hs → AnyWithin hs id → OneOf id hs
AnyWithin-OneOf id [] e k w = elim w [ ]
AnyWithin-OneOf id (h ∷ hs) e k (inl w) = inl (Within-same h id (omega (arith, k.0, e)) w)
AnyWithin-OneOf id (h ∷ hs) e k (inr w) = inr (AnyWithin-OneOf id hs e k.1 w)

OneOf-AnyWithin : (id : List ℕ) (hs : List (List ℕ)) → OneOf id hs → AnyWithin hs id
OneOf-AnyWithin id [] w = elim w [ ]
OneOf-AnyWithin id (h ∷ hs) (inl w) = inl ([], [], sym w ∙ sym (append-nil h))
OneOf-AnyWithin id (h ∷ hs) (inr w) = inr (OneOf-AnyWithin id hs w)

not_empty : (id : List ℕ) → IsHash id → id ≡ [] → ⊥
not_empty [] e w = absurd (omega arith)
not_empty (x ∷ xs) e w = absurd (ground (arith, w))

identity_passes :
    (id h : List ℕ) (hs : List (List ℕ))
    → IsHash id
    → All IsHash (h ∷ hs)
    → LetsPass (h ∷ hs) id
    → OneOf id (h ∷ hs)
identity_passes id h hs e k (inl w) = absurd (ground (arith, w))
identity_passes id h hs e k (inr (inl w)) = absurd (not_empty id e w)
identity_passes id h hs e k (inr (inr w)) = AnyWithin-OneOf id (h ∷ hs) e k w

-- A peripheral that advertises its identity has the identity as its metadata, whatever room its name
-- tells. So a scanner that is set to rooms lets it pass just when the identity happens to be the hash
-- of one of the rooms: the filter compares the one with the other.
pub describe-identity_filtered :
    (props : Properties) (id h : List ℕ) (hs : List (List ℕ))
    → find_identity props.services ≡ some id
    → IsHash id
    → All IsHash (h ∷ hs)
    → ((describe props).1 ≡ id)
      × ((metadata_matches_any_room (describe props).1 (h ∷ hs) ≡ true) ↔ OneOf id (h ∷ hs))
unfolding describe
describe-identity_filtered props id h hs f e k =
    let seen =
      ap
        (λ o.
          (described (raw_name props.local_name) props.manufacturer_data
            (parse_room_hash_from_name (raw_name props.local_name)) o).1)
        f in
    let both = metadata_matches_any_room_iff id (h ∷ hs) k in
    (
      seen,
      (
        λ w.
            identity_passes id h hs e k
              (both.0 (sym (ap (λ m. metadata_matches_any_room m (h ∷ hs)) seen) ∙ w)),
        λ w.
            ap (λ m. metadata_matches_any_room m (h ∷ hs)) seen
            ∙ both.1 (inr (inr (OneOf-AnyWithin id (h ∷ hs) w))),
      ),
    )
