-- ===== src/Transport/Tests.antt =====
-- Two sockets, two nodes that advertise, and a peripheral with two centrals:
-- crates/mlink-core/src/transport/.
use mlink.Prelude.{
  ℕ, ◌≡◌, ◌↔◌, refl, arith, String, List, [], ◌∷◌, ◌++◌, true, false, Option, none, some, map, All,
  IsByte, str_eq, if◌then◌else◌,
}
use mlink.Protocol.Errors.{ok, err, io}
use mlink.Scanner.{metadata_matches_any_room}
use mlink.Scanner.Windows.{windows}
use mlink.Transport.Framed.{StreamConnection, read, set_inbound, set_writer}
use mlink.Transport.Framed.RoundTrip.{
  read_each, write_each, taken_bytes, fresh_writer, read_each-write_each,
}
use mlink.Transport.Framed.Faults.{Agreed, write-Agreed}
use mlink.Transport.Hex.{hex_encode, hex_decode_8}
use mlink.Transport.Ble.{
  Properties, find_identity, describe, parse_room_hash_from_name, encode_identity_uuid,
  decode_identity_uuid, split_last_hash,
}
use mlink.Transport.Ble.Arbitration.{Arbitrated, decide_ble_role-Arbitrated}
use mlink.Transport.Ble.Rooms.{
  OneOf, parse_room_hash_from_name-hex_encode, describe-identity_filtered,
}
use mlink.Transport.Peripheral.{MacPeripheral, WriteRequest, did_receive_writes, inbox}
use mlink.Transport.Peripheral.Startup.{
  Waited, event, start, wait_until, wait_for_powered_on, wait_for_service_added,
  wait_for_advertising_started, state_changed, resetting, powered_on, service_added,
  advertising_started, done, central_subscribed,
}
use mlink.Transport.Peripheral.Startup.Ordered.{start_in_order}
use mlink.Transport.Peripheral.Routing.{all_for_channel, inbox-did_receive_writes}

abbrev left : StreamConnection
left = record { read_half = none; write_half = none; peer_id = "left" }

abbrev right : StreamConnection
right = record { read_half = none; write_half = none; peer_id = "right" }

abbrev messages : List (List ℕ)
messages = (1 ∷ 2 ∷ 3 ∷ []) ∷ [] ∷ (4 ∷ []) ∷ []

read_each-write_each_example :
    (read_each 3 (
        set_inbound right
          (taken_bytes (write_each (set_writer left fresh_writer) messages).write_half))
      ≡ (map (λ m. ok m) messages, set_inbound right []))
    × (read (set_inbound right []) ≡ (err (io "early eof"), set_inbound right []))
read_each-write_each_example =
    read_each-write_each left right messages (omega arith, (omega arith, (omega arith, tt)))

-- The socket fails within the payload.
write-Agreed_example : Agreed left right (1 ∷ 2 ∷ 3 ∷ []) (some (5, "reset"))
write-Agreed_example = write-Agreed left right (1 ∷ 2 ∷ 3 ∷ []) (some (5, "reset")) (omega arith)

abbrev hash : List ℕ
hash = 0xDE ∷ 0xAD ∷ 0xBE ∷ 0xEF ∷ 0x12 ∷ 0x34 ∷ 0x56 ∷ 0x78 ∷ []

hash-IsByte : All IsByte hash
hash-IsByte = (
  omega arith,
  (
    omega arith,
    (omega arith, (omega arith, (omega arith, (omega arith, (omega arith, (omega arith, tt)))))),
  ),
)

-- "a#b" before the sign of the hash.
parse_room_hash_from_name-hex_encode_example :
    parse_room_hash_from_name ((97 ∷ 35 ∷ 98 ∷ []) ++ (35 ∷ hex_encode hash))
    ≡ some (97 ∷ 35 ∷ 98 ∷ [], hash)
parse_room_hash_from_name-hex_encode_example =
    parse_room_hash_from_name-hex_encode (97 ∷ 35 ∷ 98 ∷ []) hash refl hash-IsByte

abbrev uuid_a : List ℕ
uuid_a = hash ++ hash

abbrev uuid_b : List ℕ
uuid_b = (0xDE ∷ 0xAD ∷ 0xBE ∷ 0xFF ∷ 0 ∷ 0 ∷ 0 ∷ 0 ∷ []) ++ hash

abbrev parse_uuid : String → Option (List ℕ)
parse_uuid s = if str_eq s "a" then some uuid_a else if str_eq s "b" then some uuid_b else none

decide_ble_role-Arbitrated_example :
    (id_a id_b : List ℕ) × ((uuid : List ℕ) × (encode_identity_uuid parse_uuid "a" ≡ some uuid)
      × (decode_identity_uuid uuid ≡ some id_a))
    × ((uuid : List ℕ) × (encode_identity_uuid parse_uuid "b" ≡ some uuid)
        × (decode_identity_uuid uuid ≡ some id_b))
    × Arbitrated parse_uuid "a" "b" uuid_a uuid_b id_a id_b
decide_ble_role-Arbitrated_example =
    decide_ble_role-Arbitrated parse_uuid "a" "b" uuid_a uuid_b refl refl refl refl

abbrev identity : List ℕ
identity = 1 ∷ 2 ∷ 3 ∷ 4 ∷ 5 ∷ 6 ∷ 7 ∷ 8 ∷ []

-- A peer that is in the room of the hash, as its name says, and advertises its identity.
abbrev advertised : Properties
advertised = record {
  local_name = some (97 ∷ 35 ∷ hex_encode hash);
  services = ((0 ∷ 0 ∷ 0xFF ∷ 0xBB ∷ []) ++ (identity ++ (0 ∷ 0 ∷ 0 ∷ 0 ∷ []))) ∷ [];
  manufacturer_data = [];
}

advertised_identity : find_identity advertised.services ≡ some identity
unfolding find_identity decode_identity_uuid
advertised_identity = refl

describe-identity_filtered_example :
    ((describe advertised).1 ≡ identity)
    × ((metadata_matches_any_room (describe advertised).1 (hash ∷ []) ≡ true)
        ↔ OneOf identity (hash ∷ []))
describe-identity_filtered_example =
    describe-identity_filtered advertised identity hash [] advertised_identity refl (refl, tt)

filtered_out : metadata_matches_any_room (describe advertised).1 (hash ∷ []) ≡ false
unfolding metadata_matches_any_room describe parse_room_hash_from_name hex_encode windows
    find_identity decode_identity_uuid split_last_hash hex_decode_8
filtered_out = refl

abbrev bring_up : List Waited
bring_up =
    event (state_changed resetting)
    ∷ event (state_changed powered_on)
    ∷ event (service_added done)
    ∷ event (central_subscribed "early")
    ∷ event (advertising_started done)
    ∷ []

brought_up : start bring_up ≡ (some (ok tt), [])
unfolding start wait_for_powered_on wait_for_service_added wait_for_advertising_started wait_until
brought_up = refl

start_in_order_example :
    (w1 w2 w3 : List Waited) × (bring_up
      ≡ w1
        ++ (event (state_changed powered_on)
            ∷ (w2
                ++ (event (service_added done) ∷ (w3 ++ (event (advertising_started done) ∷ []))))))
start_in_order_example = start_in_order bring_up [] brought_up

abbrev peripheral : MacPeripheral
peripheral = record {
  tx_char_uuid = 65 ∷ 66 ∷ [];
  rx_char_uuid = 67 ∷ [];
  ctrl_events = [];
  per_central_tx = ("one", 0) ∷ ("two", 1) ∷ [];
  inboxes = ((9 ∷ []) ∷ []) ∷ [] ∷ [];
  subscribed = "one" ∷ "two" ∷ [];
}

-- The characteristic in the other case, an empty write, a stranger, and another characteristic.
abbrev batch : List WriteRequest
batch =
    record { char_uuid = 97 ∷ 98 ∷ []; value = some (1 ∷ []); central = "one" }
    ∷ record { char_uuid = 65 ∷ 66 ∷ []; value = some []; central = "one" }
    ∷ record { char_uuid = 65 ∷ 66 ∷ []; value = some (2 ∷ []); central = "three" }
    ∷ record { char_uuid = 67 ∷ []; value = some (3 ∷ []); central = "one" }
    ∷ record { char_uuid = 65 ∷ 66 ∷ []; value = some (4 ∷ []); central = "two" }
    ∷ []

inbox-did_receive_writes_example :
    inbox (did_receive_writes peripheral batch).inboxes 0
    ≡ inbox peripheral.inboxes 0
      ++ all_for_channel peripheral.tx_char_uuid peripheral.per_central_tx 0 batch
inbox-did_receive_writes_example = inbox-did_receive_writes peripheral batch 0 (omega arith)
