-- ===== src/Connection/Handshake/Agreement.antt =====
-- What the two sides of a handshake learn of each other.
use mlink.Prelude.{ℕ, ◌^◌, ◌<◌, ◌≡◌, refl, sym, ap, ◌∙◌, arith, List, false, Option, some, length}
use mathlib.Core.List.{append-nil}
use mlink.Protocol.Errors.{Result, ok, err, ◌>>=◌, >>=-eq-ok}
use mlink.Protocol.Types.{
  Frame, MessageType, decode_flags, encode_flags, handshake, magic_number, protocol_version,
}
use mlink.Protocol.Types.Flags.{decode_flags-encode_flags}
use mlink.Protocol.Frame.{encode_frame, decode_frame}
use mlink.Protocol.Frame.RoundTrip.{IsWire, decode_frame-encode_frame_wire}
use mlink.Protocol.Messages.{Handshake}
use mlink.Connection.Handshake.{
  HandshakeCodec, Timed, elapsed, in_time, typed, handshake_frame, read_handshake,
  perform_handshake, after_read, after_write, framed_with,
}

abbrev frame_of : List ℕ → Frame
frame_of payload = record {
  magic = magic_number;
  version = protocol_version;
  flags = encode_flags false false handshake;
  seq = 0;
  length = length payload;
  payload = payload;
}

frame_of-IsWire : (payload : List ℕ) → length payload < 2 ^ 16 → IsWire (frame_of payload)
frame_of-IsWire payload h = record {
  magic_eq = refl;
  version_eq = refl;
  flags_lt = (decode_flags-encode_flags false false handshake).1;
  seq_lt = omega arith;
  length_eq = refl;
  length_lt = h;
}

handshake_frame-short :
    (payload : List ℕ)
    → length payload < 2 ^ 16
    → handshake_frame payload ≡ ok (encode_frame (frame_of payload))
unfolding handshake_frame
handshake_frame-short payload h = ground arith

decode_frame_of :
    (payload : List ℕ)
    → length payload < 2 ^ 16
    → decode_frame (encode_frame (frame_of payload)) ≡ ok (frame_of payload)
decode_frame_of payload h =
    ap (λ bs. decode_frame bs) (sym (append-nil (encode_frame (frame_of payload))))
    ∙ decode_frame-encode_frame_wire (frame_of payload) _ (frame_of-IsWire payload h)

-- The frame of a record is read back as the record.
read_handshake-frame_of :
    (codec : HandshakeCodec) (payload : List ℕ)
    → length payload < 2 ^ 16
    → read_handshake codec (encode_frame (frame_of payload)) ≡ codec.decode payload
unfolding read_handshake
read_handshake-frame_of codec payload h = rw (decode_frame_of payload h) (
    ap (λ t. typed codec (frame_of payload) t.2)
      (decode_flags-encode_flags false false handshake).0)

-- The call of one side, whose record is encoded in less than 2 ^ 16 bytes.
perform_handshake-sent :
    (codec : HandshakeCodec) (write : List ℕ → Timed (Unit {0})) (answer : Timed (List ℕ))
    (local : Handshake) (payload : List ℕ)
    → codec.encode local ≡ ok payload
    → length payload < 2 ^ 16
    → perform_handshake codec write answer local ≡ (
      some (encode_frame (frame_of payload)),
      after_write codec answer (write (encode_frame (frame_of payload))),
    )
unfolding perform_handshake
perform_handshake-sent codec write answer local payload e h =
    rw e (ap (λ r. framed_with codec write answer r) (handshake_frame-short payload h))

module _ (codec : HandshakeCodec) (a b : Handshake) (pa pb : List ℕ) where
  -- Two sides over a connection that takes the bytes of each and gives them to the other, with
  -- records that the codec writes in less than 2 ^ 16 bytes and reads back: each side returns the
  -- record of the other.
  pub perform_handshake_mutual :
      codec.encode a ≡ ok pa
      → codec.encode b ≡ ok pb
      → codec.decode pa ≡ ok a
      → codec.decode pb ≡ ok b
      → length pa < 2 ^ 16
      → length pb < 2 ^ 16
      → (from_a from_b : List ℕ) × (perform_handshake codec
            (λ bytes. in_time (ok tt))
            (in_time (ok from_b))
            a
          ≡ (some from_a, ok b))
        × (perform_handshake codec (λ bytes. in_time (ok tt)) (in_time (ok from_a)) b
            ≡ (some from_b, ok a))
  unfolding after_read read_handshake
  perform_handshake_mutual ea eb da db ha hb = (
    encode_frame (frame_of pa),
    encode_frame (frame_of pb),
    perform_handshake-sent codec _ _ a pa ea ha
        ∙ ap (λ r. (some (encode_frame (frame_of pa)), r))
            (read_handshake-frame_of codec pb hb ∙ db),
    perform_handshake-sent codec _ _ b pb eb hb
        ∙ ap (λ r. (some (encode_frame (frame_of pb)), r))
            (read_handshake-frame_of codec pa ha ∙ da),
  )

-- What stands behind the record that a read returns.
abbrev pub Introduced : HandshakeCodec → Handshake → List ℕ → Type 0
Introduced codec peer bytes =
    (frame : Frame) × (decode_frame bytes ≡ ok frame)
    × ((decode_flags frame.flags).2 ≡ handshake)
    × (codec.decode frame.payload ≡ ok peer)

typed-ok :
    (codec : HandshakeCodec) (peer : Handshake) (frame : Frame) (t : MessageType)
    → typed codec frame t ≡ ok peer
    → (t ≡ handshake) × (codec.decode frame.payload ≡ ok peer)
typed-ok codec peer frame handshake h = (refl, h)
typed-ok codec peer frame t h = ground (arith, h)

read_handshake-Introduced :
    (codec : HandshakeCodec) (peer : Handshake) (bytes : List ℕ)
    → read_handshake codec bytes ≡ ok peer
    → Introduced codec peer bytes
unfolding read_handshake
read_handshake-Introduced codec peer bytes h =
    let (frame, e, k) = >>=-eq-ok (decode_frame bytes) _ h in
    let (t, d) = typed-ok codec peer frame ((decode_flags frame.flags).2) k in (frame, e, t, d)

module _ (codec : HandshakeCodec) (write : List ℕ → Timed (Unit {0})) (answer : Timed (List ℕ))
    (local peer : Handshake) where
  from_read :
      (r : Timed (List ℕ))
      → after_read codec r ≡ ok peer
      → (bytes : List ℕ) × (r ≡ in_time (ok bytes)) × Introduced codec peer bytes
  unfolding after_read
  from_read elapsed h = cc
  from_read (in_time (err e)) h = cc
  from_read (in_time (ok bytes)) h = (bytes, refl, read_handshake-Introduced codec peer bytes h)

  from_write :
      (w : Timed (Unit {0}))
      → after_write codec answer w ≡ ok peer
      → (w ≡ in_time (ok tt)) × (after_read codec answer ≡ ok peer)
  from_write elapsed h = cc
  from_write (in_time (err e)) h = cc
  from_write (in_time (ok x)) h = (refl, h)

  from_frame :
      (framed : Result (List ℕ)) (sent : Option (List ℕ))
      → framed_with codec write answer framed ≡ (sent, ok peer)
      → (out : List ℕ) × (sent ≡ some out)
        × (write out ≡ in_time (ok tt))
        × ((bytes : List ℕ) × (answer ≡ in_time (ok bytes)) × Introduced codec peer bytes)
  from_frame (err e) sent h = cc
  from_frame (ok out) sent h =
      let (w, r) = from_write (write out) (ap (λ p. p.1) h) in
      (out, sym (ap (λ p. p.0) h), w, from_read answer r)

  -- A handshake that succeeds wrote its frame in time, and read in time a frame of the type
  -- Handshake whose payload the codec reads as the record that is returned.
  pub perform_handshake-Introduced :
      (sent : Option (List ℕ))
      → perform_handshake codec write answer local ≡ (sent, ok peer)
      → (out : List ℕ) × (sent ≡ some out)
        × (write out ≡ in_time (ok tt))
        × ((bytes : List ℕ) × (answer ≡ in_time (ok bytes)) × Introduced codec peer bytes)
  unfolding perform_handshake
  perform_handshake-Introduced sent h =
      from_frame (codec.encode local >>= λ payload. handshake_frame payload) sent h
