-- ===== src/Session/Send/Body.antt =====
-- The frame that a payload is sent in.
use mlink.Prelude.{
  ℕ, ◌-◌, ◌%◌, ◌^◌, ◌<◌, ◌≤◌, ◌≡◌, ◌⊎◌, refl, arith, List, ◌++◌, Bool, true, false, ◌&&◌, Option,
  none, some, if◌then◌else◌, ltb, length, Bool-cases, inl, inr,
}
use mlink.Protocol.Errors.{ok, err, payload_too_large, >>=-eq-ok}
use mlink.Protocol.Types.{MessageType, decode_flags}
use mlink.Protocol.Types.Flags.{decode_flags-encode_flags}
use mlink.Protocol.Frame.{encode_frame, decode_frame}
use mlink.Protocol.Frame.RoundTrip.{IsWire, decode_frame-encode_frame_wire}
use mlink.Session.State.{Env}
use mlink.Session.Send.{build, compress_body, encrypt_body, frame_of, should_compress, encrypt}

frame_of-IsWire :
    (seq : ℕ) (t : MessageType) (body : List ℕ) (c e : Bool)
    → length body < 2 ^ 16
    → IsWire (frame_of seq t body c e)
frame_of-IsWire seq t body c e h = record {
  magic_eq = refl;
  version_eq = refl;
  flags_lt = (decode_flags-encode_flags c e t).1;
  seq_lt = omega arith;
  length_eq = refl;
  length_lt = h;
}

abbrev pub is_some {ℓ} : {A : Type ℓ} → Option A → Bool
is_some none = false
is_some (some a) = true

-- What the receiver of the bytes reads: a frame with the body, whose flags tell the type and what
-- was done to the body.
pub record Carries (seq : ℕ) (t : MessageType) (c e : Bool) (body bytes : List ℕ) : Type 0 where
  pub decodes : (rest : List ℕ) → decode_frame (bytes ++ rest) ≡ ok (frame_of seq t body c e)
  pub flags_eq : decode_flags (frame_of seq t body c e).flags ≡ (c, e, t)
  pub fits : length body < 2 ^ 16

encode_frame-Carries :
    (seq : ℕ) (t : MessageType) (body : List ℕ) (c e : Bool)
    → length body < 2 ^ 16
    → Carries seq t c e body (encode_frame (frame_of seq t body c e))
encode_frame-Carries seq t body c e h = record {
  decodes = λ rest.
      decode_frame-encode_frame_wire (frame_of seq t body c e) rest
        (frame_of-IsWire seq t body c e h);
  flags_eq = (decode_flags-encode_flags c e t).0;
  fits = h;
}

compress_flag :
    (env : Env) (compress : Bool) (payload b : List ℕ) (c : Bool)
    → compress_body env compress payload ≡ ok (b, c)
    → c ≡ (compress && should_compress payload)
compress_flag env compress payload b c h = elim (Bool-cases (compress && should_compress payload)) [
  | inl yes' ↦
      let (z, _, q) = >>=-eq-ok (env.zstd payload) _ (rw yes' at h) in rw yes' (ground arith)
  | inr no' ↦ rw no' (ground (arith, no'))
]

encrypt_flag :
    (env : Env) (key : Option (List ℕ)) (seq : ℕ) (b1 b2 : List ℕ) (e : Bool)
    → encrypt_body env key seq b1 ≡ ok (b2, e)
    → e ≡ is_some key
encrypt_flag env none seq b1 b2 e h = ground arith
encrypt_flag env (some k) seq b1 b2 e h =
    let (z, _, q) = >>=-eq-ok (encrypt env b1 k (seq % 2 ^ 16)) _ h in ground arith

finished :
    (seq : ℕ) (t : MessageType) (b2 : List ℕ) (c e : Bool) {bytes : List ℕ}
    → (if ltb (2 ^ 16 - 1) (length b2)
        then err (payload_too_large (length b2) (2 ^ 16 - 1))
        else ok (encode_frame (frame_of seq t b2 c e)))
      ≡ ok bytes
    → Carries seq t c e b2 bytes
finished seq t b2 c e {bytes} h = elim (Bool-cases (ltb (2 ^ 16 - 1) (length b2))) [
  | inl long ↦ absurd (ground (arith, h, long))
  | inr short ↦
      let q : ok (encode_frame (frame_of seq t b2 c e)) ≡ ok bytes = rw short at h in
      let q' : encode_frame (frame_of seq t b2 c e) ≡ bytes = cc in
      rw (← q') (encode_frame-Carries seq t b2 c e (ground arith))
]

module _ (env : Env) (seq : ℕ) (t : MessageType) (payload : List ℕ) (key : Option (List ℕ))
    (compress : Bool) (bytes : List ℕ) where
  abbrev pub Built : Type 0
  Built =
      (b1 b2 : List ℕ) × (compress_body env compress payload
        ≡ ok (b1, compress && should_compress payload))
      × (encrypt_body env key seq b1 ≡ ok (b2, is_some key))
      × Carries seq t (compress && should_compress payload) (is_some key) b2 bytes

  assemble :
      (b1 b2 : List ℕ) (c e : Bool)
      → compress_body env compress payload ≡ ok (b1, c)
      → encrypt_body env key seq b1 ≡ ok (b2, e)
      → (if ltb (2 ^ 16 - 1) (length b2)
          then err (payload_too_large (length b2) (2 ^ 16 - 1))
          else ok (encode_frame (frame_of seq t b2 c e)))
        ≡ ok bytes
      → Built
  assemble b1 b2 c e e1 e2 h =
      let c_eq : c ≡ (compress && should_compress payload) =
        compress_flag env compress payload b1 c e1 in
      let e_eq : e ≡ is_some key = encrypt_flag env key seq b1 b2 e e2 in
      (b1, b2, rw c_eq at e1, rw e_eq at e2, rw (← c_eq, ← e_eq) (finished seq t b2 c e h))

  -- A body that was built is carried by the bytes: the payload compressed if that was asked for
  -- and it is long enough, then encrypted if there is a key.
  pub build-Carries : build env seq t payload key compress ≡ ok bytes → Built
  unfolding build
  build-Carries h =
      let ((b1, c), e1, h1) = >>=-eq-ok (compress_body env compress payload) _ h in
      let ((b2, e), e2, h2) = >>=-eq-ok (encrypt_body env key seq b1) _ h1 in
      assemble b1 b2 c e e1 e2 h2

-- Without key and compression a payload of less than 2 ^ 16 bytes is carried as it is, and a
-- longer one is refused.
pub build_plain :
    (env : Env) (seq : ℕ) (t : MessageType) (payload : List ℕ)
    → ((length payload < 2 ^ 16)
        × ((bytes : List ℕ) × (build env seq t payload none false ≡ ok bytes)
            × Carries seq t false false payload bytes))
      ⊎ ((2 ^ 16 ≤ length payload)
          × (build env seq t payload none false
              ≡ err (payload_too_large (length payload) (2 ^ 16 - 1))))
build_plain env seq t payload = elim (Bool-cases (ltb (2 ^ 16 - 1) (length payload))) [
  | inl long ↦ inr (ground arith, (unfold build in rw long))
  | inr short ↦ inl (
    ground arith,
    (
      encode_frame (frame_of seq t payload false false),
      (unfold build in rw short),
      encode_frame-Carries seq t payload false false (ground arith),
    ),
  )
]

-- The same, from the bytes that were built.
pub plain-Carries :
    (env : Env) (seq : ℕ) (t : MessageType) (payload bytes : List ℕ)
    → build env seq t payload none false ≡ ok bytes
    → Carries seq t false false payload bytes
plain-Carries env seq t payload bytes h = elim (build_plain env seq t payload) [
  | inl (_, (b, e, c)) ↦ let q : b ≡ bytes = ground (arith, e, h) in rw (← q) c
  | inr (_, e) ↦ absurd (ground (arith, e, h))
]
