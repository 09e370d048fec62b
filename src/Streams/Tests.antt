-- ===== src/Streams/Tests.antt =====
-- A short payload in chunks of two bytes: crates/mlink-core/src/api/stream.rs.
use mlink.Prelude.{ℕ, ◌≡◌, ◌≢◌, refl, ap, arith, str_eq, String, List, [], ◌∷◌}
use mlink.Protocol.Errors.{Result, ok, err, timeout}
use mlink.Connection.{central, peripheral, negotiate_role}
use mlink.Streams.{StreamChunkMsg, StreamEndMsg, StreamEnv, xor8_checksum}
use mlink.Streams.Chunks.{chunks}
use mlink.Streams.Ids.{next_after, next_stream_id-negotiate_role}
use mlink.Streams.Writing.{Faithful}

abbrev chunk_in : List ℕ → Result StreamChunkMsg
chunk_in [] = err timeout
chunk_in (id ∷ []) = err timeout
chunk_in (id ∷ i ∷ bytes) = ok (record { stream_id = id; chunk_index = i; bytes = bytes })

abbrev end_in : List ℕ → Result StreamEndMsg
end_in (id ∷ sum ∷ []) = ok (record { stream_id = id; checksum = sum })
end_in other = err timeout

abbrev env : StreamEnv
env = record {
  outcome = λ n. ok tt;
  encode_info = λ m. ok (m.stream_id ∷ m.total_chunks ∷ m.total_size ∷ []);
  encode_chunk = λ m. ok (m.stream_id ∷ m.chunk_index ∷ m.bytes);
  encode_end = λ m. ok (m.stream_id ∷ m.checksum ∷ []);
  decode_chunk = chunk_in;
  decode_end = end_in;
}

abbrev env-Faithful : Faithful env
env-Faithful = record {
  info_bytes = λ m. m.stream_id ∷ m.total_chunks ∷ m.total_size ∷ [];
  chunk_bytes = λ m. m.stream_id ∷ m.chunk_index ∷ m.bytes;
  end_bytes = λ m. m.stream_id ∷ m.checksum ∷ [];
  sends = λ n. refl;
  info_eq = λ m. refl;
  chunk_eq = λ m. refl;
  end_eq = λ m. refl;
  chunk_back = λ m. refl;
  end_back = λ m. refl;
}

abbrev payload : List ℕ
payload = 10 ∷ 20 ∷ 30 ∷ 40 ∷ 50 ∷ []

payload_in_chunks : chunks 2 payload ≡ (10 ∷ 20 ∷ []) ∷ (30 ∷ 40 ∷ []) ∷ (50 ∷ []) ∷ []
unfolding chunks
payload_in_chunks = refl

checksum_of_payload : xor8_checksum payload ≡ 26
unfolding xor8_checksum
checksum_of_payload = refl

different : Path String "a" "b" → ⊥
different e = absurd (ground (arith, ap (λ s. str_eq s "a") e))

next_stream_id-negotiate_role_example :
    next_after (central ∷ peripheral ∷ []) (negotiate_role "a" "b")
    ≢ next_after (peripheral ∷ []) (negotiate_role "b" "a")
next_stream_id-negotiate_role_example =
    next_stream_id-negotiate_role "a" "b" (central ∷ peripheral ∷ []) (peripheral ∷ []) different
