-- ===== src/Protocol/Frame/RoundTrip.antt =====
-- What `decode_frame` reads back of `encode_frame`.
use mlink.Prelude.{
  ℕ, ◌%◌, ◌^◌, ◌<◌, ◌≡◌, arith, List, ◌++◌, length, length-append, take, take-length_append,
}
use mlink.Protocol.Errors.{ok}
use mlink.Protocol.Types.{Frame, magic_number, protocol_version}
use mlink.Protocol.Frame.{encode_frame, decode_frame}

-- Whatever the payload's length, the reader takes its lowest 16 bits for the length.
pub decode_frame-encode_frame :
    (frame : Frame) (rest : List ℕ)
    → frame.seq < 2 ^ 16
    → decode_frame (encode_frame frame ++ rest)
      ≡ ok (record {
        magic = magic_number;
        version = protocol_version;
        flags = frame.flags;
        seq = frame.seq;
        length = length frame.payload % 2 ^ 16;
        payload = take (length frame.payload % 2 ^ 16) (frame.payload ++ rest);
      })
unfolding encode_frame decode_frame
decode_frame-encode_frame frame rest h = ground (arith, length-append frame.payload rest)

-- A frame that the wire can carry: the constants of the header, 16-bit numbers, and the length of
-- the payload in the header.
pub record IsWire (frame : Frame) : Type 0 where
  pub magic_eq : frame.magic ≡ magic_number
  pub version_eq : frame.version ≡ protocol_version
  pub flags_lt : frame.flags < 256
  pub seq_lt : frame.seq < 2 ^ 16
  pub length_eq : frame.length ≡ length frame.payload
  pub length_lt : length frame.payload < 2 ^ 16

-- A frame that the wire can carry is read back whole, whatever bytes follow it.
pub decode_frame-encode_frame_wire :
    (frame : Frame) (rest : List ℕ)
    → IsWire frame
    → decode_frame (encode_frame frame ++ rest) ≡ ok frame
decode_frame-encode_frame_wire frame rest w =
    ground
      (arith, decode_frame-encode_frame frame rest w.seq_lt, take-length_append frame.payload rest)
