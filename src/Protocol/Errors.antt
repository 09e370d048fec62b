-- ===== src/Protocol/Errors.antt =====
-- crates/mlink-core/src/protocol/errors.rs: the error type that every layer returns.
-- A message that the source builds by `format!` keeps its parts as the arguments of a constructor
-- of `Message`; the text of a foreign error is `foreign`.
use mlink.Prelude.{ℕ, String, ◌≡◌, refl}

pub data Message : Type 0 where
  frame_too_short : ℕ → ℕ → Message
  invalid_magic : ℕ → Message
  unsupported_version : ℕ → Message
  payload_truncated : ℕ → ℕ → Message
  ack_too_short : ℕ → ℕ → Message
  aes_key_length : ℕ → Message
  expected_handshake : ℕ → Message
  foreign : String → Message

pub data MlinkError : Type 0 where
  timeout : MlinkError
  peer_gone : String → MlinkError
  handler_error : String → MlinkError
  payload_too_large : ℕ → ℕ → MlinkError
  unknown_method : String → MlinkError
  stream_failed : ℕ → MlinkError
  backpressure : MlinkError
  security_error : Message → MlinkError
  codec_error : Message → MlinkError
  compress_error : String → MlinkError
  room_mismatch : String → MlinkError
  no_healthy_link : String → MlinkError
  ble : String → MlinkError
  io : String → MlinkError

pub data Result {ℓ} (A : Type ℓ) : Type ℓ where
  ok : A → Result A
  err : MlinkError → Result A

-- The `?` of the source.
infixl 5 ◌>>=◌
abbrev pub ◌>>=◌ {ℓ κ} : {B : Type κ} {A : Type ℓ} → Result A → (A → Result B) → Result B
(err e) >>= next = err e
(ok x) >>= next = next x

-- What a chain that ends well went through.
pub >>=-eq-ok {ℓ κ} :
    {B : Type κ} {A : Type ℓ} (r : Result A) (next : A → Result B) {y : B}
    → r >>= next ≡ ok y
    → (x : A) × (r ≡ ok x) × (next x ≡ ok y)
>>=-eq-ok (err e) next h = cc
>>=-eq-ok (ok x) next h = (x, refl, h)
