-- ===== src/Streams/Transfer.antt =====
-- A whole payload, from the announcement to the end of its stream.
use mlink.Prelude.{
  ℕ, ◌+◌, ◌<◌, ◌==◌, ◌≡◌, refl, ap, ◌∙◌, arith, String, List, [], ◌∷◌, ◌++◌, length, false,
}
use mathlib.Core.List.{append_assoc}
use mlink.Protocol.Errors.{Result, ok, err}
use mlink.Protocol.Types.{stream_start}
use mlink.Protocol.Messages.{StreamInfo}
use mlink.Connection.{Role}
use mlink.Streams.{
  Counters, StreamEnv, Channel, StreamWriter, write, finish, total_of,
  create_stream_with_chunk_size, next_stream_id,
}
use mlink.Streams.Chunks.{chunks}
use mlink.Streams.Writing.{Faithful, Sent, chunk_frames, end_frame, writer, extended, write-finish}

regroup {ℓ} :
    {A : Type ℓ} (old : List A) (first : A) (middle last : List A)
    → ((old ++ (first ∷ [])) ++ middle) ++ last ≡ old ++ (first ∷ (middle ++ last))
regroup old first middle last =
    append_assoc (old ++ (first ∷ [])) middle last ∙ append_assoc old (first ∷ []) (middle ++ last)

abbrev after_write :
    StreamEnv → Result (Unit {0}) × StreamWriter × Channel → Result (Unit {0}) × Channel
after_write env (ok x, w, ch) = finish env w ch
after_write env (err e, w, ch) = (err e, ch)

abbrev after_create :
    StreamEnv → List ℕ → Result StreamWriter × Channel → Result (Unit {0}) × Channel
after_create env bytes (ok w, ch) = after_write env (write env w ch bytes)
after_create env bytes (err e, ch) = (err e, ch)

-- A client that opens a stream for a payload, writes the payload and finishes.
pub transfer :
    StreamEnv → Counters → Channel → Role → String → List ℕ → ℕ → Result (Unit {0}) × Channel
transfer env counters ch role peer bytes size =
    after_create env bytes (create_stream_with_chunk_size env counters ch role peer bytes size).0

abbrev pub info_of : ℕ → List ℕ → ℕ → StreamInfo
info_of id bytes size = record {
  stream_id = id;
  total_chunks = total_of bytes size;
  total_size = length bytes;
  checksum_algo = "xor8";
}

module _ (env : StreamEnv) (f : Faithful env) (counters : Counters) (ch : Channel) (role : Role)
    (peer : String) (bytes : List ℕ) where
  abbrev pub id_of : ℕ
  id_of = (next_stream_id role counters).0

  -- The announcement, the chunks in order, and the end with the checksum of the payload.
  abbrev pub transfer_frames : ℕ → Sent
  transfer_frames size =
      (peer, stream_start, f.info_bytes (info_of id_of bytes size))
      ∷ (chunk_frames env f peer id_of 0 (chunks size bytes)
          ++ (end_frame env f peer id_of bytes ∷ []))

  announced : Channel → ℕ → Channel
  announced c size = record {
    calls = c.calls + 1;
    sent = c.sent ++ ((peer, stream_start, f.info_bytes (info_of id_of bytes size)) ∷ []);
  }

  create-ok :
      (size : ℕ)
      → 0 < size
      → (create_stream_with_chunk_size env counters ch role peer bytes size).0
        ≡ (ok (writer env f peer id_of size (total_of bytes size)), announced ch size)
  unfolding create_stream_with_chunk_size announced
  create-ok size h =
      let positive : (size == 0) ≡ false = ground (arith, h) in
      rw (positive, f.info_eq, f.sends) refl

  abbrev written : ℕ → Channel
  written size =
      extended env f (writer env f peer id_of size (total_of bytes size)) (announced ch size)
        (chunks size bytes)

  -- When the sends succeed and the payloads can be encoded, a transfer with a positive chunk size
  -- succeeds, and what it sent is the announcement, the chunks in order, each with its number, and
  -- the end with the checksum of the whole payload.
  pub transfer-Faithful :
      (size : ℕ)
      → 0 < size
      → (n : ℕ) × (transfer env counters ch role peer bytes size
          ≡ (ok tt, record { calls = n; sent = ch.sent ++ transfer_frames size }))
  unfolding transfer announced
  transfer-Faithful size h =
      let both =
        write-finish env f peer id_of size (total_of bytes size) (announced ch size) bytes h in
      (
        (written size).calls + 1,
        ap (after_create env bytes) (create-ok size h)
            ∙ ap (after_write env) both.0
            ∙ both.1
            ∙ ap (λ s. (ok tt, record { calls = (written size).calls + 1; sent = s }))
                (regroup ch.sent (peer, stream_start, f.info_bytes (info_of id_of bytes size))
                  (chunk_frames env f peer id_of 0 (chunks size bytes))
                  (end_frame env f peer id_of bytes ∷ [])),
      )
