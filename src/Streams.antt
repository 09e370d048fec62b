-- ===== src/Streams.antt =====
-- crates/mlink-core/src/api/stream.rs: a payload cut in chunks, and read back chunk by chunk.
-- The node is what its sends answer: the n-th call of `send_raw` succeeds or fails as the environment
-- says, and the messages that were sent are kept in order. MessagePack is the environment's too.
pub mod Chunks
pub mod Ids
pub mod Reader
pub mod Writing
pub mod Transfer
pub mod Reading
mod Tests
use mlink.Prelude.{
  ℕ, ◌+◌, ◌-◌, ◌/◌, ◌%◌, ◌^◌, ◌==◌, min, bit_xor, xor_all, String, List, [], ◌∷◌, ◌++◌, Bool, true,
  false, if◌then◌else◌, length,
}
use mlink.Protocol.Errors.{Result, ok, err, MlinkError, handler_error}
use mlink.Protocol.Types.{MessageType, stream_start, stream_chunk, stream_end}
use mlink.Protocol.Messages.{StreamInfo}
use mlink.Connection.{Role, central, peripheral}
use mlink.Streams.Chunks.{chunks}

abbrev pub default_chunk_size : ℕ
default_chunk_size = 256

-- The two counters, which step by two.
pub record Counters : Type 0 where
  pub of_central : ℕ
  pub of_peripheral : ℕ

abbrev pub first_counters : Counters
first_counters = record { of_central = 0; of_peripheral = 1 }

unfoldable pub next_stream_id_central : Counters → ℕ × Counters
next_stream_id_central c = (c.of_central, record c { of_central = (c.of_central + 2) % 2 ^ 16 })

unfoldable pub next_stream_id_peripheral : Counters → ℕ × Counters
next_stream_id_peripheral c =
    (c.of_peripheral, record c { of_peripheral = (c.of_peripheral + 2) % 2 ^ 16 })

unfoldable pub next_stream_id : Role → Counters → ℕ × Counters
unfolding next_stream_id_central next_stream_id_peripheral
next_stream_id central c = next_stream_id_central c
next_stream_id peripheral c = next_stream_id_peripheral c

unfoldable pub xor8_checksum : List ℕ → ℕ
xor8_checksum bytes = xor_all 0 bytes

pub record StreamChunkMsg : Type 0 where
  pub stream_id : ℕ
  pub chunk_index : ℕ
  pub bytes : List ℕ

pub record StreamEndMsg : Type 0 where
  pub stream_id : ℕ
  pub checksum : ℕ

pub record StreamEnv : Type 0 where
  pub outcome : ℕ → Result (Unit {0})
  pub encode_info : StreamInfo → Result (List ℕ)
  pub encode_chunk : StreamChunkMsg → Result (List ℕ)
  pub encode_end : StreamEndMsg → Result (List ℕ)
  pub decode_chunk : List ℕ → Result StreamChunkMsg
  pub decode_end : List ℕ → Result StreamEndMsg

pub record Channel : Type 0 where
  pub calls : ℕ
  pub sent : List (String × MessageType × List ℕ)

abbrev logged :
    Channel → String → MessageType → List ℕ → Result (Unit {0}) → Result (Unit {0}) × Channel
logged ch peer t payload (ok x) =
    (ok tt, record { calls = ch.calls + 1; sent = ch.sent ++ ((peer, t, payload) ∷ []) })
logged ch peer t payload (err e) = (err e, record ch { calls = ch.calls + 1 })

abbrev pub send_raw :
    StreamEnv → Channel → String → MessageType → List ℕ → Result (Unit {0}) × Channel
send_raw env ch peer t payload = logged ch peer t payload (env.outcome ch.calls)

-- A payload that may not have been encoded.
abbrev pub send_encoded :
    StreamEnv → Channel → String → MessageType → Result (List ℕ) → Result (Unit {0}) × Channel
send_encoded env ch peer t (err e) = (err e, ch)
send_encoded env ch peer t (ok payload) = send_raw env ch peer t payload

pub record StreamWriter : Type 0 where
  pub peer_id : String
  pub stream_id : ℕ
  pub chunk_size : ℕ
  pub chunk_index : ℕ
  pub total_chunks : ℕ
  pub checksum : ℕ
  pub finished : Bool

abbrev numbered :
    StreamWriter → Result (Unit {0}) × Channel → Result (Unit {0}) × StreamWriter × Channel
numbered w (ok x, ch) = (ok tt, record w { chunk_index = min (w.chunk_index + 1) (2 ^ 32 - 1) }, ch)
numbered w (err e, ch) = (err e, w, ch)

-- One round of the loop: the checksum first, the index last.
unfoldable pub write_chunk :
    StreamEnv → StreamWriter → Channel → List ℕ → Result (Unit {0}) × StreamWriter × Channel
unfolding xor8_checksum
write_chunk env w ch chunk =
    let summed : StreamWriter = record w { checksum = bit_xor w.checksum (xor8_checksum chunk) } in
    let payload =
      env.encode_chunk
        (record { stream_id = w.stream_id; chunk_index = w.chunk_index; bytes = chunk }) in
    numbered summed (send_encoded env ch w.peer_id stream_chunk payload)

abbrev pub go_on :
    Result (Unit {0}) × StreamWriter × Channel
    → Result (Unit {0}) × StreamWriter × Channel
    → Result (Unit {0}) × StreamWriter × Channel
go_on (ok x, w, ch) rest = rest
go_on (err e, w, ch) rest = (err e, w, ch)

unfoldable pub write_chunks :
    StreamEnv → StreamWriter → Channel → List (List ℕ) → Result (Unit {0}) × StreamWriter × Channel
unfolding write_chunk
write_chunks env w ch [] = (ok tt, w, ch)
write_chunks env w ch (chunk ∷ cs) =
    let step = write_chunk env w ch chunk in go_on step (write_chunks env step.1 step.2 cs)

unfoldable pub write :
    StreamEnv → StreamWriter → Channel → List ℕ → Result (Unit {0}) × StreamWriter × Channel
unfolding write_chunks
write env w ch bytes =
    if w.finished
    then (err (handler_error "stream already finished"), w, ch)
    else write_chunks env w ch (chunks w.chunk_size bytes)

unfoldable pub finish : StreamEnv → StreamWriter → Channel → Result (Unit {0}) × Channel
finish env w ch =
    let payload = env.encode_end (record { stream_id = w.stream_id; checksum = w.checksum }) in
    if w.finished then (ok tt, ch) else send_encoded env ch w.peer_id stream_end payload

abbrev pub total_of : List ℕ → ℕ → ℕ
total_of [] chunk_size = 0
total_of (b ∷ bs) chunk_size = (length (b ∷ bs) + chunk_size - 1) / chunk_size % 2 ^ 32

abbrev opened : StreamWriter → Result (Unit {0}) × Channel → Result StreamWriter × Channel
opened w (ok x, ch) = (ok w, ch)
opened w (err e, ch) = (err e, ch)

-- The role is that of the node towards the peer. The identifier is taken before the announcement is
-- sent, and stays taken when that fails.
unfoldable pub create_stream_with_chunk_size :
    StreamEnv
    → Counters
    → Channel
    → Role
    → String
    → List ℕ
    → ℕ
    → (Result StreamWriter × Channel) × Counters
unfolding next_stream_id
create_stream_with_chunk_size env counters ch role peer_id bytes chunk_size =
    let (stream_id, counters') = next_stream_id role counters in
    let total_chunks : ℕ = total_of bytes chunk_size in
    let w : StreamWriter = record {
      peer_id = peer_id;
      stream_id = stream_id;
      chunk_size = chunk_size;
      chunk_index = 0;
      total_chunks = total_chunks;
      checksum = 0;
      finished = false;
    } in
    let info : StreamInfo = record {
      stream_id = stream_id;
      total_chunks = total_chunks;
      total_size = length bytes;
      checksum_algo = "xor8";
    } in
    if chunk_size == 0
    then ((err (handler_error "chunk_size must be > 0"), ch), counters)
    else (opened w (send_encoded env ch peer_id stream_start (env.encode_info info)), counters')

unfoldable pub create_stream :
    StreamEnv
    → Counters
    → Channel
    → Role
    → String
    → List ℕ
    → (Result StreamWriter × Channel) × Counters
unfolding create_stream_with_chunk_size
create_stream env counters ch role peer_id bytes =
    create_stream_with_chunk_size env counters ch role peer_id bytes default_chunk_size
