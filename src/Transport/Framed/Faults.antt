-- ===== src/Transport/Framed/Faults.antt =====
-- What a reader reads when the writer's socket fails in the middle of a message.
use mlink.Prelude.{
  ℕ, ◌-◌, ◌+◌, ◌^◌, ◌<◌, ◌≤◌, ◌≡◌, ◌⊎◌, refl, arith, String, List, [], ◌++◌, Option, none, some,
  ltb, Bool-cases, inl, inr, length, length-take, take, to_be_bytes, from_be_bytes-to_be_bytes,
}
use mlink.Protocol.Errors.{ok, err, io}
use mlink.Transport.Framed.{
  StreamConnection, read, write, read_exact, write_all, set_inbound, set_writer,
}
use mlink.Transport.Framed.RoundTrip.{framed, taken_bytes, read-framed_alone, write-framed}

-- A stream that ends within the length of a message, or within its payload.
pub read-short_header :
    (c : StreamConnection) (bytes : List ℕ)
    → length bytes < 4
    → read (set_inbound c bytes) ≡ (err (io "early eof"), set_inbound c [])
unfolding read read_exact
read-short_header c bytes h = ground arith

pub read-short_payload :
    (c : StreamConnection) (n : ℕ) (bytes : List ℕ)
    → n < 2 ^ 32
    → length bytes < n
    → read (set_inbound c (to_be_bytes 4 n ++ bytes)) ≡ (err (io "early eof"), set_inbound c [])
unfolding read read_exact
read-short_payload c n bytes h k = ground (arith, from_be_bytes-to_be_bytes 4 n)

module _ (a : StreamConnection) (payload : List ℕ) (room : ℕ) (text : String) where
  abbrev failing_at : StreamConnection
  failing_at = set_writer a (record { sent = []; fault = some (room, text) })

  write_in_header :
      length payload < 2 ^ 32
      → room < 4
      → write failing_at payload ≡ (
        err (io text),
        set_writer a
            (record { sent = take room (to_be_bytes 4 (length payload)); fault = some (0, text) }),
      )
  unfolding write write_all
  write_in_header h k = ground arith

  write_in_payload :
      length payload < 2 ^ 32
      → 4 ≤ room
      → room - 4 < length payload
      → write failing_at payload ≡ (
        err (io text),
        set_writer a (record {
          sent = to_be_bytes 4 (length payload) ++ take (room - 4) payload;
          fault = some (0, text);
        }),
      )
  unfolding write write_all
  write_in_payload h k l = ground arith

  write_enough :
      length payload < 2 ^ 32
      → 4 + length payload ≤ room
      → write failing_at payload ≡ (
        ok tt,
        set_writer a
            (record { sent = framed payload; fault = some (room - 4 - length payload, text) }),
      )
  unfolding write write_all
  write_enough h k = ground arith

module _ (a b : StreamConnection) (payload : List ℕ) where
  abbrev writer_failing_at : Option (ℕ × String) → StreamConnection
  writer_failing_at fault = set_writer a (record { sent = []; fault = fault })

  -- The write ended well and the message is there, or the write failed and no message is.
  abbrev pub Agreed : Option (ℕ × String) → Type 0
  Agreed fault =
      let w = write (writer_failing_at fault) payload in
      let seen = read (set_inbound b (taken_bytes w.1.write_half)) in
      ((w.0 ≡ ok tt) × (seen ≡ (ok payload, set_inbound b [])))
      ⊎ ((text : String) × (w.0 ≡ err (io text))
          × (seen ≡ (err (io "early eof"), set_inbound b [])))

  Agreed-at : (room : ℕ) (text : String) → length payload < 2 ^ 32 → Agreed (some (room, text))
  Agreed-at room text h = elim (Bool-cases (ltb room 4)) [
    | inl early ↦ rw (write_in_header a payload room text h (ground arith)) (
        inr (
          text,
          refl,
          read-short_header b (take room (to_be_bytes 4 (length payload)))
              (ground (arith, early, length-take room (to_be_bytes 4 (length payload)))),
        ))
    | inr late ↦ elim (Bool-cases (ltb (room - 4) (length payload))) [
      | inl short ↦ rw (write_in_payload a payload room text h (ground arith) (ground arith)) (
          inr (
            text,
            refl,
            read-short_payload b (length payload) (take (room - 4) payload) h
                (ground (arith, short, length-take (room - 4) payload)),
          ))
      | inr long ↦
          rw (write_enough a payload room text h (ground arith))
            (inl (refl, read-framed_alone b payload h))
    ]
  ]

  -- A message of less than 2 ^ 32 bytes, written to a socket that may fail after any number of
  -- bytes: either the write succeeds and the other end reads the whole message, or the write
  -- returns the error of the socket and the other end, at the end of the stream, gets an error;
  -- it never gets a part of the message.
  pub write-Agreed : (fault : Option (ℕ × String)) → length payload < 2 ^ 32 → Agreed fault
  write-Agreed none h = rw (write-framed a [] payload h) (inl (refl, read-framed_alone b payload h))
  write-Agreed (some (room, text)) h = Agreed-at room text h
