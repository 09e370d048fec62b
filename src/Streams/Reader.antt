-- ===== src/Streams/Reader.antt =====
-- crates/mlink-core/src/api/stream.rs, StreamReader: the chunks of one stream among the frames of a
-- peer.
-- The answers of `recv_raw` come in as a list; at its end the reader waits. The percentage, a float
-- of the source, is kept as its two numbers before the division.
use mlink.Prelude.{
  ℕ, ◌+◌, ◌-◌, ◌*◌, ◌^◌, ◌==◌, min, String, List, [], ◌∷◌, Bool, true, false, if◌then◌else◌,
}
use mlink.Protocol.Errors.{Result, ok, err}
use mlink.Protocol.Types.{MessageType, stream_chunk, stream_end}
use mlink.Protocol.Messages.{StreamInfo}
use mlink.Streams.{StreamEnv, StreamChunkMsg, StreamEndMsg}

pub record Progress : Type 0 where
  pub received : ℕ
  pub total : ℕ
  pub percent : ℕ × ℕ

abbrev pub new_progress : ℕ → ℕ → Progress
new_progress received total = record {
  received = received;
  total = total;
  percent = if total == 0 then (100, 1) else (received * 100, total);
}

pub record StreamReader : Type 0 where
  pub peer_id : String
  pub stream_id : ℕ
  pub total_chunks : ℕ
  pub received : ℕ
  pub done : Bool

unfoldable pub new_reader : String → StreamInfo → StreamReader
new_reader peer_id info = record {
  peer_id = peer_id;
  stream_id = info.stream_id;
  total_chunks = info.total_chunks;
  received = 0;
  done = false;
}

-- What one frame is to the reader.
pub data Verdict : Type 0 where
  passed_over over : Verdict
  chunk : List ℕ → Verdict

abbrev chunk_verdict : ℕ → Result StreamChunkMsg → Verdict
chunk_verdict id (err e) = passed_over
chunk_verdict id (ok m) = if m.stream_id == id then chunk m.bytes else passed_over

abbrev end_verdict : ℕ → Result StreamEndMsg → Verdict
end_verdict id (err e) = passed_over
end_verdict id (ok m) = if m.stream_id == id then over else passed_over

unfoldable pub verdict : StreamEnv → ℕ → MessageType → List ℕ → Verdict
verdict env id stream_chunk payload = chunk_verdict id (env.decode_chunk payload)
verdict env id stream_end payload = end_verdict id (env.decode_end payload)
verdict env id other payload = passed_over

-- What `next` returns; `waiting` when it has not returned yet.
pub data Next : Type 0 where
  piece : List ℕ → Progress → Next
  at_end waiting : Next

abbrev pub Inbound : Type 0
Inbound = List (Result (MessageType × List ℕ))

abbrev pub counted : StreamReader → StreamReader
counted r = record r { received = min (r.received + 1) (2 ^ 32 - 1) }

abbrev pub judged :
    StreamReader → Inbound → Verdict → Next × StreamReader × Inbound → Next × StreamReader × Inbound
judged r rest passed_over again = again
judged r rest over again = (at_end, record r { done = true }, rest)
judged r rest (chunk bytes) again =
    (piece bytes (new_progress (counted r).received r.total_chunks), counted r, rest)

unfoldable pub next_loop : StreamEnv → StreamReader → Inbound → Next × StreamReader × Inbound
unfolding verdict
next_loop env r [] = (waiting, r, [])
next_loop env r (err e ∷ rest) = (at_end, record r { done = true }, rest)
next_loop env r (ok (t, payload) ∷ rest) =
    judged r rest (verdict env r.stream_id t payload) (next_loop env r rest)

unfoldable pub next : StreamEnv → StreamReader → Inbound → Next × StreamReader × Inbound
unfolding next_loop
next env r inbound = if r.done then (at_end, r, inbound) else next_loop env r inbound
