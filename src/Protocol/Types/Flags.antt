-- ===== src/Protocol/Types/Flags.antt =====
-- The flags byte and the type codes, both ways.
use mlink.Prelude.{ℕ, ◌<◌, ◌≡◌, ◌↔◌, arith, Bool, some}
use mlink.Protocol.Types.{MessageType, to_u8, try_from, encode_flags, decode_flags}

-- A byte is read as a message type exactly when it is that type's code.
pub try_from_iff : (value : ℕ) (t : MessageType) → (try_from value ≡ some t) ↔ (to_u8 t ≡ value)
unfolding try_from to_u8
try_from_iff value t = ground arith

-- The flags byte is read back as the two booleans and the type that it was made of, and it is a
-- byte.
pub decode_flags-encode_flags :
    (compressed encrypted : Bool) (t : MessageType)
    → (decode_flags (encode_flags compressed encrypted t) ≡ (compressed, encrypted, t))
      × (encode_flags compressed encrypted t < 256)
unfolding decode_flags encode_flags
decode_flags-encode_flags c e t = ground arith
