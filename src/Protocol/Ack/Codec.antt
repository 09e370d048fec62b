-- ===== src/Protocol/Ack/Codec.antt =====
-- Acknowledgement frames as bytes, both ways.
use mlink.Prelude.{ℕ, ◌^◌, ◌<◌, ◌≡◌, arith, List, ◌++◌, length, from_be_bytes-to_be_bytes}
use mlink.Protocol.Errors.{ok}
use mlink.Protocol.Ack.{AckFrame, encode_ack, decode_ack, ack_frame_bytes}

-- An acknowledgement of a 32-bit number and 128 bits takes 20 bytes and is read back, whatever
-- follows it.
pub decode_ack-encode_ack :
    (a : AckFrame) (rest : List ℕ)
    → a.ack < 2 ^ 32
    → a.bitmap < 2 ^ 128
    → (decode_ack (encode_ack a ++ rest) ≡ ok a) × (length (encode_ack a) ≡ ack_frame_bytes)
unfolding encode_ack decode_ack
decode_ack-encode_ack a rest h k = (
  ground (arith, from_be_bytes-to_be_bytes 4 a.ack, from_be_bytes-to_be_bytes 16 a.bitmap),
  omega arith,
)
