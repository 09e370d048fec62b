-- ===== src/Connection/Handshake.antt =====
-- crates/mlink-core/src/core/connection.rs, perform_handshake: each side writes a frame with its own
-- record and reads the record of the other.
-- What the connection does is given from outside: whether the write ended, failed or ran into its
-- timeout, and the same for the read.
pub mod Agreement
use mlink.Prelude.{
  ℕ, ◌-◌, ◌^◌, ltb, if◌then◌else◌, List, Bool, true, false, Option, none, some, length,
}
use mlink.Protocol.Errors.{
  Result, ok, err, ◌>>=◌, MlinkError, payload_too_large, handler_error, codec_error,
  expected_handshake,
}
use mlink.Protocol.Types.{
  MessageType, Frame, magic_number, protocol_version, encode_flags, decode_flags, handshake, to_u8,
}
use mlink.Protocol.Frame.{encode_frame, decode_frame}
use mlink.Protocol.Messages.{Handshake}

pub record HandshakeCodec : Type 0 where
  pub encode : Handshake → Result (List ℕ)
  pub decode : List ℕ → Result Handshake

pub data Timed {ℓ} (A : Type ℓ) : Type ℓ where
  elapsed : Timed A
  in_time : Result A → Timed A

unfoldable pub handshake_frame : List ℕ → Result (List ℕ)
unfolding encode_flags
handshake_frame payload =
    if ltb (2 ^ 16 - 1) (length payload)
    then err (payload_too_large (length payload) (2 ^ 16 - 1))
    else ok (
        encode_frame (record {
          magic = magic_number;
          version = protocol_version;
          flags = encode_flags false false handshake;
          seq = 0;
          length = length payload;
          payload = payload;
        }))

abbrev pub is_handshake : MessageType → Bool
is_handshake handshake = true
is_handshake other = false

abbrev pub typed : HandshakeCodec → Frame → MessageType → Result Handshake
typed codec frame t =
    if is_handshake t
    then codec.decode frame.payload
    else err (codec_error (expected_handshake (to_u8 t)))

-- What the bytes of the other side say.
unfoldable pub read_handshake : HandshakeCodec → List ℕ → Result Handshake
unfolding decode_flags decode_frame to_u8
read_handshake codec bytes = do
  frame ← decode_frame bytes
  typed codec frame ((decode_flags frame.flags).2)

abbrev pub after_read : HandshakeCodec → Timed (List ℕ) → Result Handshake
unfolding read_handshake
after_read codec elapsed = err (handler_error "handshake read timed out after 10s")
after_read codec (in_time r) = r >>= λ bytes. read_handshake codec bytes

abbrev pub after_write : HandshakeCodec → Timed (List ℕ) → Timed (Unit {0}) → Result Handshake
after_write codec answer elapsed = err (handler_error "handshake write timed out after 10s")
after_write codec answer (in_time (err e)) = err e
after_write codec answer (in_time (ok x)) = after_read codec answer

abbrev pub framed_with :
    HandshakeCodec
    → (List ℕ → Timed (Unit {0}))
    → Timed (List ℕ)
    → Result (List ℕ)
    → Option (List ℕ) × Result Handshake
framed_with codec write answer (err e) = (none, err e)
framed_with codec write answer (ok bytes) = (some bytes, after_write codec answer (write bytes))

-- The bytes that were given to the connection, if any, and the answer.
unfoldable pub perform_handshake :
    HandshakeCodec
    → (List ℕ → Timed (Unit {0}))
    → Timed (List ℕ)
    → Handshake
    → Option (List ℕ) × Result Handshake
unfolding handshake_frame
perform_handshake codec write answer local =
    framed_with codec write answer (codec.encode local >>= λ payload. handshake_frame payload)
