-- ===== src/Streams/Writing.antt =====
-- What a transfer puts on the wire.
use mlink.Prelude.{
  ℕ, ◌+◌, ◌-◌, ◌^◌, ◌<◌, ◌≡◌, refl, sym, ap, ◌∙◌, min, xor_all, xor_all-split, xor_all-append,
  String, List, [], ◌∷◌, ◌++◌, false,
}
use mathlib.Core.List.{append_assoc, append-nil}
use mlink.Protocol.Errors.{Result, ok}
use mlink.Protocol.Types.{MessageType, stream_chunk, stream_end}
use mlink.Protocol.Messages.{StreamInfo}
use mlink.Streams.{
  StreamChunkMsg, StreamEndMsg, StreamEnv, Channel, StreamWriter, send_encoded, write_chunk,
  write_chunks, go_on, write, finish, xor8_checksum,
}
use mlink.Streams.Chunks.{chunks, flat, chunks-partition}

-- Sends that succeed, and an encoding that can be read back.
pub record Faithful (env : StreamEnv) : Type 0 where
  pub info_bytes : StreamInfo → List ℕ
  pub chunk_bytes : StreamChunkMsg → List ℕ
  pub end_bytes : StreamEndMsg → List ℕ
  pub sends : (n : ℕ) → env.outcome n ≡ ok tt
  pub info_eq : (m : StreamInfo) → env.encode_info m ≡ ok (info_bytes m)
  pub chunk_eq : (m : StreamChunkMsg) → env.encode_chunk m ≡ ok (chunk_bytes m)
  pub end_eq : (m : StreamEndMsg) → env.encode_end m ≡ ok (end_bytes m)
  pub chunk_back : (m : StreamChunkMsg) → env.decode_chunk (chunk_bytes m) ≡ ok m
  pub end_back : (m : StreamEndMsg) → env.decode_end (end_bytes m) ≡ ok m

abbrev pub Sent : Type 0
Sent = List (String × MessageType × List ℕ)

abbrev pub next_index : ℕ → ℕ
next_index i = min (i + 1) (2 ^ 32 - 1)

abbrev pub index_after : ℕ → List (List ℕ) → ℕ
index_after i [] = i
index_after i (c ∷ cs) = index_after (next_index i) cs

abbrev pub calls_after : ℕ → List (List ℕ) → ℕ
calls_after n [] = n
calls_after n (c ∷ cs) = calls_after (n + 1) cs

module _ (env : StreamEnv) (f : Faithful env) where
  abbrev pub chunk_frames : String → ℕ → ℕ → List (List ℕ) → Sent
  chunk_frames peer id i [] = []
  chunk_frames peer id i (c ∷ cs) =
      (peer, stream_chunk, f.chunk_bytes (record { stream_id = id; chunk_index = i; bytes = c }))
      ∷ chunk_frames peer id (next_index i) cs

  pub send_encoded-ok :
      (ch : Channel) (peer : String) (t : MessageType) (payload : List ℕ) (r : Result (List ℕ))
      → r ≡ ok payload
      → send_encoded env ch peer t r
        ≡ (ok tt, record { calls = ch.calls + 1; sent = ch.sent ++ ((peer, t, payload) ∷ []) })
  send_encoded-ok ch peer t payload r e = rw (e, f.sends ch.calls) refl

  abbrev wrote_well : StreamWriter → ℕ → ℕ → ℕ → Sent → Result (Unit {0}) × StreamWriter × Channel
  wrote_well w i checksum n sent =
      (ok tt, record w { chunk_index = i; checksum = checksum }, record { calls = n; sent = sent })

  abbrev pub advanced : StreamWriter → List (List ℕ) → StreamWriter
  advanced w cs = record w {
    chunk_index = index_after w.chunk_index cs;
    checksum = xor_all w.checksum (flat cs);
  }

  abbrev pub extended : StreamWriter → Channel → List (List ℕ) → Channel
  extended w ch cs = record {
    calls = calls_after ch.calls cs;
    sent = ch.sent ++ chunk_frames w.peer_id w.stream_id w.chunk_index cs;
  }

  write_chunk-ok :
      (w : StreamWriter) (ch : Channel) (c : List ℕ)
      → write_chunk env w ch c ≡ (ok tt, advanced w (c ∷ []), extended w ch (c ∷ []))
  unfolding write_chunk xor8_checksum
  write_chunk-ok w ch c =
      rw (f.chunk_eq, f.sends ch.calls)
        (ap
          (λ s.
            wrote_well w (next_index w.chunk_index) s (ch.calls + 1) (extended w ch (c ∷ [])).sent)
          (sym (xor_all-split w.checksum c) ∙ ap (xor_all w.checksum) (sym (append-nil c))))

  write_chunks-ok :
      (w : StreamWriter) (ch : Channel) (cs : List (List ℕ))
      → write_chunks env w ch cs ≡ (ok tt, advanced w cs, extended w ch cs)
  unfolding write_chunks
  write_chunks-ok w ch [] =
      ap (λ t. wrote_well w w.chunk_index w.checksum ch.calls t) (sym (append-nil ch.sent))
  write_chunks-ok w ch (c ∷ cs) =
      ap (λ s. go_on s (write_chunks env s.1 s.2 cs)) (write_chunk-ok w ch c)
      ∙ write_chunks-ok (advanced w (c ∷ [])) (extended w ch (c ∷ [])) cs
      ∙ ap
          (λ s.
            wrote_well w (index_after (next_index w.chunk_index) cs) s
              (calls_after (ch.calls + 1) cs)
              (extended (advanced w (c ∷ [])) (extended w ch (c ∷ [])) cs).sent)
          (ap (λ t. xor_all (xor_all w.checksum t) (flat cs)) (append-nil c)
            ∙ sym (xor_all-append w.checksum c (flat cs)))
      ∙ ap
          (λ t.
            wrote_well w (index_after (next_index w.chunk_index) cs)
              (xor_all w.checksum (c ++ flat cs)) (calls_after (ch.calls + 1) cs) t)
          (append_assoc ch.sent (chunk_frames w.peer_id w.stream_id w.chunk_index (c ∷ []))
            (chunk_frames w.peer_id w.stream_id (next_index w.chunk_index) cs))

  abbrev pub writer : String → ℕ → ℕ → ℕ → StreamWriter
  writer peer id size total = record {
    peer_id = peer;
    stream_id = id;
    chunk_size = size;
    chunk_index = 0;
    total_chunks = total;
    checksum = 0;
    finished = false;
  }

  abbrev pub end_frame : String → ℕ → List ℕ → String × MessageType × List ℕ
  end_frame peer id bytes =
      (peer, stream_end, f.end_bytes (record { stream_id = id; checksum = xor8_checksum bytes }))

  -- What `write` and `finish` add for a whole payload.
  pub write-finish :
      (peer : String) (id size total : ℕ) (ch : Channel) (bytes : List ℕ)
      → 0 < size
      → (write env (writer peer id size total) ch bytes ≡ (
        ok tt,
        advanced (writer peer id size total) (chunks size bytes),
        extended (writer peer id size total) ch (chunks size bytes),
      ))
        × (finish env
              (advanced (writer peer id size total) (chunks size bytes))
              (extended (writer peer id size total) ch (chunks size bytes))
            ≡ (
              ok tt,
              record {
                calls = calls_after ch.calls (chunks size bytes) + 1;
                sent =
                    (ch.sent ++ chunk_frames peer id 0 (chunks size bytes))
                    ++ (end_frame peer id bytes ∷ []);
              },
            ))
  unfolding write finish xor8_checksum
  write-finish peer id size total ch bytes h = (
    write_chunks-ok (writer peer id size total) ch (chunks size bytes),
    rw ((chunks-partition size bytes h).0, f.end_eq) (rw (f.sends) refl),
  )
