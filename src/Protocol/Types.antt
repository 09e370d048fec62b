-- ===== src/Protocol/Types.antt =====
-- crates/mlink-core/src/protocol/types.rs: message types, priorities, the flags byte, frames.
pub mod Flags
use mlink.Prelude.{
  ℕ, ◌^◌, bit_and, bit_or, ◌<◌, ◌==◌, if◌then◌else◌, Bool, true, false, not, List, Option, none,
  some,
}

abbrev pub magic_number : ℕ
magic_number = 0x4D4C

abbrev pub protocol_version : ℕ
protocol_version = 0x01

abbrev pub header_size : ℕ
header_size = 8

abbrev flag_compressed : ℕ
flag_compressed = 0x80

abbrev flag_encrypted : ℕ
flag_encrypted = 0x40

abbrev type_mask : ℕ
type_mask = 0x3F

abbrev type_error_on_wire : ℕ
type_error_on_wire = 0x3F

pub data MessageType : Type 0 where
  handshake heartbeat ack ctrl message stream_start stream_chunk stream_end stream_ack : MessageType
  request response response_stream subscribe publish unsubscribe error : MessageType

-- The discriminants, as `u8::from` gives them.
unfoldable pub to_u8 : MessageType → ℕ
to_u8 handshake = 0x01
to_u8 heartbeat = 0x02
to_u8 ack = 0x03
to_u8 ctrl = 0x04
to_u8 message = 0x10
to_u8 stream_start = 0x11
to_u8 stream_chunk = 0x12
to_u8 stream_end = 0x13
to_u8 stream_ack = 0x14
to_u8 request = 0x20
to_u8 response = 0x21
to_u8 response_stream = 0x22
to_u8 subscribe = 0x30
to_u8 publish = 0x31
to_u8 unsubscribe = 0x32
to_u8 error = 0xFF

-- `none` is `Err(InvalidMessageType(value))`.
unfoldable pub try_from : ℕ → Option MessageType
try_from value =
    if value == 0x01
    then some handshake
    else if value == 0x02
    then some heartbeat
    else if value == 0x03
    then some ack
    else if value == 0x04
    then some ctrl
    else if value == 0x10
    then some message
    else if value == 0x11
    then some stream_start
    else if value == 0x12
    then some stream_chunk
    else if value == 0x13
    then some stream_end
    else if value == 0x14
    then some stream_ack
    else if value == 0x20
    then some request
    else if value == 0x21
    then some response
    else if value == 0x22
    then some response_stream
    else if value == 0x30
    then some subscribe
    else if value == 0x31
    then some publish
    else if value == 0x32
    then some unsubscribe
    else if value == 0xFF
    then some error
    else none

pub data Priority : Type 0 where
  p0 p1 p2 p3 : Priority

unfoldable pub priority : MessageType → Priority
priority handshake = p0
priority heartbeat = p0
priority ack = p0
priority ctrl = p0
priority stream_ack = p1
priority request = p1
priority response = p1
priority response_stream = p1
priority error = p1
priority message = p2
priority stream_start = p2
priority stream_end = p2
priority subscribe = p2
priority publish = p2
priority unsubscribe = p2
priority stream_chunk = p3

abbrev type_bits : MessageType → ℕ
type_bits error = type_error_on_wire
type_bits other = bit_and (to_u8 other) type_mask

unfoldable pub encode_flags : Bool → Bool → MessageType → ℕ
unfolding to_u8
encode_flags compressed encrypted msg_type =
    let flags : ℕ = type_bits msg_type in
    let flags' : ℕ = if compressed then bit_or flags flag_compressed else flags in
    if encrypted then bit_or flags' flag_encrypted else flags'

abbrev or_error : Option MessageType → MessageType
or_error none = error
or_error (some t) = t

unfoldable pub decode_flags : ℕ → Bool × Bool × MessageType
unfolding try_from
decode_flags flags =
    let compressed = not (bit_and flags flag_compressed == 0) in
    let encrypted = not (bit_and flags flag_encrypted == 0) in
    let bits = bit_and flags type_mask in
    let msg_type = if bits == type_error_on_wire then error else or_error (try_from bits) in
    (compressed, encrypted, msg_type)

pub record Frame : Type 0 where
  pub magic : ℕ
  pub version : ℕ
  pub flags : ℕ
  pub seq : ℕ
  pub length : ℕ
  pub payload : List ℕ
