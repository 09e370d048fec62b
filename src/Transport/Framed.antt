-- ===== src/Transport/Framed.antt =====
-- crates/mlink-core/src/transport/tcp.rs and ipc.rs: messages over a stream of bytes, each behind
-- its length in four bytes.
-- A socket is what the operating system does with it: the read half holds the bytes that the far
-- side sends before it ends the stream, and the write half the bytes that were taken so far. `fault`
-- is the number of bytes after which the socket fails, and the text of that failure.
pub mod RoundTrip
pub mod Faults
use mlink.Prelude.{
  ℕ, ◌-◌, ◌^◌, String, List, [], ◌∷◌, ◌++◌, Option, none, some, Bool, true, false, ltb,
  if◌then◌else◌, length, take, drop, to_be_bytes, from_be_bytes,
}
use mlink.Protocol.Errors.{Result, ok, err, peer_gone, payload_too_large, io}

pub record WriteHalf : Type 0 where
  pub sent : List ℕ
  pub fault : Option (ℕ × String)

pub record StreamConnection : Type 0 where
  pub read_half : Option (List ℕ)
  pub write_half : Option WriteHalf
  pub peer_id : String

-- `read_exact`: at the end of the stream the bytes that are there are lost.
unfoldable pub read_exact : ℕ → List ℕ → Result (List ℕ) × List ℕ
read_exact n bytes =
    if ltb (length bytes) n then (err (io "early eof"), []) else (ok (take n bytes), drop n bytes)

abbrev pub set_inbound : StreamConnection → List ℕ → StreamConnection
set_inbound c rest = record c { read_half = some rest }

abbrev payload_read :
    StreamConnection → Result (List ℕ) × List ℕ → Result (List ℕ) × StreamConnection
payload_read c (r, rest) = (r, set_inbound c rest)

abbrev header_read :
    StreamConnection → Result (List ℕ) × List ℕ → Result (List ℕ) × StreamConnection
unfolding read_exact
header_read c (err e, rest) = (err e, set_inbound c rest)
header_read c (ok head, rest) =
    let len = from_be_bytes head in
    if ltb 0 len then payload_read c (read_exact len rest) else (ok [], set_inbound c rest)

abbrev read_from : StreamConnection → Option (List ℕ) → Result (List ℕ) × StreamConnection
unfolding read_exact
read_from c none = (err (peer_gone c.peer_id), c)
read_from c (some inbound) = header_read c (read_exact 4 inbound)

unfoldable pub read : StreamConnection → Result (List ℕ) × StreamConnection
unfolding read_from
read c = read_from c c.read_half

abbrev taken : List ℕ → List ℕ → Option (ℕ × String) → Result (Unit {0}) × WriteHalf
taken sent payload none = (ok tt, record { sent = sent ++ payload; fault = none })
taken sent payload (some (room, text)) =
    if ltb room (length payload)
    then (err (io text), record { sent = sent ++ take room payload; fault = some (0, text) })
    else (ok tt, record { sent = sent ++ payload; fault = some (room - length payload, text) })

-- `write_all`: the socket takes the bytes up to its fault.
unfoldable pub write_all : WriteHalf → List ℕ → Result (Unit {0}) × WriteHalf
write_all w payload = taken w.sent payload w.fault

abbrev pub is_empty {ℓ} : {A : Type ℓ} → List A → Bool
is_empty [] = true
is_empty (x ∷ xs) = false

abbrev pub set_writer : StreamConnection → WriteHalf → StreamConnection
set_writer c w = record c { write_half = some w }

abbrev data_written :
    StreamConnection → Result (Unit {0}) × WriteHalf → Result (Unit {0}) × StreamConnection
data_written c (r, w) = (r, set_writer c w)

abbrev header_written :
    StreamConnection → List ℕ → Result (Unit {0}) × WriteHalf → Result (Unit {0}) × StreamConnection
unfolding write_all
header_written c payload (err e, w) = (err e, set_writer c w)
header_written c payload (ok x, w) =
    if is_empty payload then (ok tt, set_writer c w) else data_written c (write_all w payload)

abbrev write_to :
    StreamConnection → List ℕ → Option WriteHalf → Result (Unit {0}) × StreamConnection
unfolding write_all
write_to c payload none = (err (peer_gone c.peer_id), c)
write_to c payload (some w) =
    if ltb (2 ^ 32 - 1) (length payload)
    then (err (payload_too_large (length payload) (2 ^ 32 - 1)), c)
    else header_written c payload (write_all w (to_be_bytes 4 (length payload)))

unfoldable pub write : StreamConnection → List ℕ → Result (Unit {0}) × StreamConnection
unfolding write_to
write c payload = write_to c payload c.write_half

-- What the shutdown of a writer says.
pub data Shutdown : Type 0 where
  shut not_connected : Shutdown
  shutdown_failed : String → Shutdown

abbrev closed_with : Option WriteHalf → Shutdown → Result (Unit {0})
closed_with none answer = ok tt
closed_with (some w) shut = ok tt
closed_with (some w) not_connected = ok tt
closed_with (some w) (shutdown_failed text) = err (io text)

-- Both halves are gone whatever the shutdown says.
unfoldable pub close : StreamConnection → Shutdown → Result (Unit {0}) × StreamConnection
close c answer = (closed_with c.write_half answer, record c { read_half = none; write_half = none })
