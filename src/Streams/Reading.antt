-- ===== src/Streams/Reading.antt =====
-- What a reader reads of the frames of a transfer.
use mlink.Prelude.{ℕ, zero, suc, String, List, [], ◌∷◌, map, length, false}
use mlink.Protocol.Errors.{ok}
use mlink.Protocol.Messages.{StreamInfo}
use mlink.Connection.{Role}
use mlink.Streams.{Counters, Channel, next_stream_id, StreamEnv}
use mlink.Streams.Transfer.{transfer, info_of}
use mlink.Streams.Writing.{Faithful, Sent, next_index}
use mlink.Streams.Reader.{
  Progress, new_progress, StreamReader, Next, piece, at_end, waiting, Inbound, next, new_reader,
}

-- A client that calls `next` until it says that the stream is over, or waits.
abbrev stepped : Next → List (List ℕ × Progress) × Next → List (List ℕ × Progress) × Next
stepped (piece bytes p) rest = ((bytes, p) ∷ rest.0, rest.1)
stepped at_end rest = ([], at_end)
stepped waiting rest = ([], waiting)

pub collect : ℕ → StreamEnv → StreamReader → Inbound → List (List ℕ × Progress) × Next
collect zero env r inbound = ([], waiting)
collect (suc fuel) env r inbound =
    let n = next env r inbound in stepped n.0 (collect fuel env n.1 n.2)

abbrev pub received_of : Sent → Inbound
received_of frames = map (λ s. ok (s.1, s.2)) frames

module _ (env : StreamEnv) (f : Faithful env) (peer : String) (id : ℕ) where
  -- The pieces that a reader hands out, with the count at each.
  abbrev pub pieces : ℕ → ℕ → List (List ℕ) → List (List ℕ × Progress)
  pieces total got [] = []
  pieces total got (c ∷ cs) =
      (c, new_progress (next_index got) total) ∷ pieces total (next_index got) cs

  abbrev pub reader_at : ℕ → ℕ → StreamReader
  reader_at total got = record {
    peer_id = peer;
    stream_id = id;
    total_chunks = total;
    received = got;
    done = false;
  }

abbrev pub fresh_channel : Channel
fresh_channel = record { calls = 0; sent = [] }

module _ (env : StreamEnv) (f : Faithful env) (counters : Counters) (role : Role) (peer : String)
    (bytes : List ℕ) (size : ℕ) where
  abbrev pub sent_by_transfer : Sent
  sent_by_transfer = (transfer env counters fresh_channel role peer bytes size).1.sent

  abbrev pub announced_info : StreamInfo
  announced_info = info_of (next_stream_id role counters).0 bytes size

  abbrev pub read_back : List (List ℕ × Progress) × Next
  read_back =
      collect (length sent_by_transfer) env (new_reader peer announced_info)
        (received_of sent_by_transfer)
