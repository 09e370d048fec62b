-- ===== src/Transport/Ble.antt =====
-- crates/mlink-core/src/transport/ble.rs and crates/mlink-cli/src/role.rs: what an advertisement says
-- of its peer, and who dials.
-- A UUID is its sixteen bytes; reading one from a text is the uuid crate's, and an argument. A text of
-- the advertisement is the list of its bytes. What the adapter reports of a peripheral is a record.
pub mod Arbitration
pub mod Rooms
use mlink.Prelude.{
  ℕ, ◌+◌, String, List, [], ◌∷◌, ◌++◌, Bool, true, false, not, Option, none, some, if◌then◌else◌,
  ltb, ◌==◌, length, take, drop,
}
use mlink.Link.{TransportKind, ble}
use mlink.Session.Manager.{bytes_eq, kind_eq}
use mlink.Transport.Hex.{hex_decode_8}

abbrev pub identity_uuid_marker : List ℕ
identity_uuid_marker = 0x00 ∷ 0x00 ∷ 0xFF ∷ 0xBB ∷ []

abbrev pub identity_in : List ℕ → List ℕ
identity_in src = identity_uuid_marker ++ (take 8 src ++ (0 ∷ 0 ∷ 0 ∷ 0 ∷ []))

abbrev pub identity_of : Option (List ℕ) → Option (List ℕ)
identity_of none = none
identity_of (some src) = some (identity_in src)

unfoldable pub encode_identity_uuid : (String → Option (List ℕ)) → String → Option (List ℕ)
encode_identity_uuid parse_uuid app_uuid = identity_of (parse_uuid app_uuid)

unfoldable pub decode_identity_uuid : List ℕ → Option (List ℕ)
decode_identity_uuid bytes =
    if not (bytes_eq (take 4 bytes) identity_uuid_marker)
    then none
    else some (take 8 (drop 4 bytes))

pub data Order : Type 0 where
  less equal greater : Order

-- The order of two slices: by the first byte that differs, then by the length.
unfoldable pub cmp_bytes : List ℕ → List ℕ → Order
cmp_bytes [] [] = equal
cmp_bytes [] (b ∷ bs) = less
cmp_bytes (a ∷ as') [] = greater
cmp_bytes (a ∷ as') (b ∷ bs) =
    if ltb a b then less else if ltb b a then greater else cmp_bytes as' bs

abbrev pub dials_by : Order → Option Bool
dials_by greater = some true
dials_by less = some false
dials_by equal = none

abbrev pub dials : Option (List ℕ) → List ℕ → Option Bool
unfolding cmp_bytes
dials none peer_identity = none
dials (some own) peer_identity = dials_by (cmp_bytes (take 8 own) peer_identity)

unfoldable pub should_dial_as_central : (String → Option (List ℕ)) → String → List ℕ → Option Bool
unfolding dials
should_dial_as_central parse_uuid local peer_identity = dials (parse_uuid local) peer_identity

pub data RoleDecision : Type 0 where
  dial skip symmetric_fallback : RoleDecision

abbrev pub decided : Option Bool → RoleDecision
decided none = symmetric_fallback
decided (some true) = dial
decided (some false) = skip

unfoldable pub decide_ble_role :
    (String → Option (List ℕ)) → TransportKind → String → List ℕ → RoleDecision
unfolding should_dial_as_central
decide_ble_role parse_uuid kind local peer_metadata =
    if not (kind_eq kind ble)
    then dial
    else if not (length peer_metadata == 8)
    then dial
    else decided (should_dial_as_central parse_uuid local peer_metadata)

-- `rfind('#')`: what stands before the last such byte, and after it.
abbrev pub or_here : ℕ → List ℕ → Option (List ℕ × List ℕ) → Option (List ℕ × List ℕ)
or_here x xs none = if x == 35 then some ([], xs) else none
or_here x xs (some (before, after)) = some (x ∷ before, after)

unfoldable pub split_last_hash : List ℕ → Option (List ℕ × List ℕ)
split_last_hash [] = none
split_last_hash (x ∷ xs) = or_here x xs (split_last_hash xs)

abbrev pub with_base : List ℕ → Option (List ℕ) → Option (List ℕ × List ℕ)
with_base base none = none
with_base base (some hash) = some (base, hash)

abbrev pub suffix_read : Option (List ℕ × List ℕ) → Option (List ℕ × List ℕ)
unfolding hex_decode_8
suffix_read none = none
suffix_read (some (base, hex)) = with_base base (hex_decode_8 hex)

unfoldable pub parse_room_hash_from_name : List ℕ → Option (List ℕ × List ℕ)
unfolding split_last_hash suffix_read
parse_room_hash_from_name name = suffix_read (split_last_hash name)

-- What the adapter reports: the name, the advertised services, the bytes of the manufacturer.
pub record Properties : Type 0 where
  pub local_name : Option (List ℕ)
  pub services : List (List ℕ)
  pub manufacturer_data : List (List ℕ)

abbrev pub or_next : Option (List ℕ) → Option (List ℕ) → Option (List ℕ)
or_next none rest = rest
or_next (some a) rest = some a

unfoldable pub find_identity : List (List ℕ) → Option (List ℕ)
unfolding decode_identity_uuid
find_identity [] = none
find_identity (s ∷ ss) = or_next (decode_identity_uuid s) (find_identity ss)

abbrev flat : List (List ℕ) → List ℕ
flat [] = []
flat (c ∷ cs) = c ++ flat cs

abbrev pub raw_name : Option (List ℕ) → List ℕ
raw_name none = []
raw_name (some name) = name

abbrev base_or : List ℕ → Option (List ℕ × List ℕ) → List ℕ
base_or raw none = raw
base_or raw (some (base, hash)) = base

abbrev named : List ℕ → List (List ℕ) → Option (List ℕ × List ℕ) → List ℕ × List ℕ
named raw manufacturer none = (raw, flat manufacturer)
named raw manufacturer (some (base, hash)) = (base, hash)

abbrev pub described :
    List ℕ → List (List ℕ) → Option (List ℕ × List ℕ) → Option (List ℕ) → List ℕ × List ℕ
described raw manufacturer suffix (some id) = (base_or raw suffix, id)
described raw manufacturer suffix none = named raw manufacturer suffix

-- The name and the metadata of a peripheral that `discover` found.
unfoldable pub describe : Properties → List ℕ × List ℕ
unfolding parse_room_hash_from_name find_identity
describe props =
    described (raw_name props.local_name) props.manufacturer_data
      (parse_room_hash_from_name (raw_name props.local_name)) (find_identity props.services)
