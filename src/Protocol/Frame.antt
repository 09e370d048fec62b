-- ===== src/Protocol/Frame.antt =====
-- crates/mlink-core/src/protocol/frame.rs: frames as bytes.
pub mod RoundTrip
pub mod Accepts
use mlink.Prelude.{
  ℕ, ◌+◌, ◌-◌, ◌%◌, ◌^◌, List, [], ◌∷◌, ◌++◌, ltb, ◌==◌, not, if◌then◌else◌, length, get_or, take,
  drop, to_be_bytes, from_be_bytes,
}
use mlink.Protocol.Errors.{
  Result, ok, err, codec_error, frame_too_short, invalid_magic, unsupported_version,
  payload_truncated,
}
use mlink.Protocol.Types.{Frame, magic_number, protocol_version, header_size}

-- `as u16` keeps the lowest 16 bits of the length.
unfoldable pub encode_frame : Frame → List ℕ
encode_frame frame =
    let length' = length frame.payload % 2 ^ 16 in
    to_be_bytes 2 magic_number
    ++ (protocol_version
        ∷ frame.flags
        ∷ (to_be_bytes 2 frame.seq ++ (to_be_bytes 2 length' ++ frame.payload)))

-- `data[i]`, where the length test has shown that `i` is in range.
abbrev byte_at : List ℕ → ℕ → ℕ
byte_at bytes i = get_or bytes i 0

unfoldable pub decode_frame : List ℕ → Result Frame
decode_frame bytes =
    let magic = from_be_bytes (byte_at bytes 0 ∷ byte_at bytes 1 ∷ []) in
    let version = byte_at bytes 2 in
    let flags = byte_at bytes 3 in
    let seq = from_be_bytes (byte_at bytes 4 ∷ byte_at bytes 5 ∷ []) in
    let length' = from_be_bytes (byte_at bytes 6 ∷ byte_at bytes 7 ∷ []) in
    let payload_end = header_size + length' in
    if ltb (length bytes) header_size
    then err (codec_error (frame_too_short (length bytes) header_size))
    else if not (magic == magic_number)
    then err (codec_error (invalid_magic magic))
    else if not (version == protocol_version)
    then err (codec_error (unsupported_version version))
    else if ltb (length bytes) payload_end
    then err (codec_error (payload_truncated (length bytes) payload_end))
    else ok (record {
      magic = magic;
      version = version;
      flags = flags;
      seq = seq;
      length = length';
      payload = take (payload_end - header_size) (drop header_size bytes);
    })
