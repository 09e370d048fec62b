-- ===== src/Lib.antt =====
-- mlink: a verification library for the core of the repository.
--
-- mlink links devices over several transports at once (Bluetooth, TCP, a local socket). A peer is one
-- session; its links carry frames, a scheduler picks the active link and fails over, the receiver
-- drops duplicates and acknowledges late. Paths below are from the repository's root; `core` stands
-- for crates/mlink-core/src.
--
-- Parts, their code and how they interact:
--
-- Prelude     shared helpers: tests into Bool, lists, the latest items of a list, association
--             lists over strings, bits, byte strings, and signed numbers (Prelude.Int).
-- Protocol    core/protocol. Errors: the error type and `?`. Types: message types, priorities and
--             the flags byte. Frame: encode_frame and decode_frame. Seq: SeqGen and DedupWindow. Ack:
--             AckFrame and UnackedRing. Seq.Window holds the specification of the window, a list of
--             the numbers accepted that never wraps; Seq.Refines shows that the 128 bits do the same.
-- Link        core/core/link.rs: health, moving averages, score. After a write or a read, after_io
--             records the outcome.
-- Session     core/core/session. State: types.rs. Pick: the scheduler of io.rs. Send: the rest of
--             io.rs, with encrypt of core/core/security.rs and should_compress. Recv: reader.rs.
--             Manager: manager.rs, the table of sessions. Send
--             numbers a frame (Protocol.Seq), builds it (Protocol.Frame), writes it over a link, and
--             keeps it in the ring (Protocol.Ack); Recv decodes frames, asks the window, and sends
--             the window's snapshot back as an acknowledgement, which Send.on_ack applies.
-- Node        core/core/node/io.rs and types.rs: the frames of a peer that has one connection, built as
--             Session.Send builds them, with the connection of Connection; decrypt is
--             core/core/security.rs.
-- Reconnect   core/core/reconnect.rs: the delays between attempts to reconnect.
-- Rooms       core/core/room.rs: the rooms that a node has joined.
-- Connection  core/core/connection.rs: the roles, the map of connections, and in Connection.Handshake
--             perform_handshake, whose frames are Protocol.Frame's.
-- Streams     core/api/stream.rs: a payload cut in chunks by StreamWriter (Streams, Streams.Chunks) and
--             read by StreamReader (Streams.Reader).
-- Rpc         core/api/rpc.rs: the table of pending requests, the registry of handlers, and in
--             Rpc.Dispatch the answer to a request.
-- Scanner     core/core/scanner.rs: the filter by rooms, the rounds and the loop, over the peers that a
--             transport finds (Transport.DiscoveredPeer).
-- Transport   core/transport. Framed: read, write and close of tcp.rs, the same in ipc.rs. Hex: the hash
--             of a room as text. Ble: what ble.rs makes of an advertisement, which Scanner filters, and
--             the decision of crates/mlink-cli/src/role.rs. Peripheral: the table of centrals of
--             peripheral.rs and the callbacks on it, with the waits of its start in
--             Peripheral.Startup.
-- Topics      core/api/pubsub.rs: the subscriptions.
-- Queue       crates/mlink-daemon/src/queue.rs: messages that wait for a client.
-- Tracker     crates/mlink-cli/src/conn_tracker.rs: which peers a command dials.
--
-- How the code is translated. A method on `&self` with locks is a function from the state to its
-- result and the state after it; locks are held for single steps, so calls are taken one after the
-- other. Machine integers are natural numbers with the wrap-around or saturation written out. A
-- HashMap is an association list and a HashSet a list; no theorem depends on their order. The text of
-- an error message keeps its parts as arguments of a constructor.
--
-- What comes from outside: `Session.State.Env` answers each write (by the number of the call), the
-- clock, zstd and AES-GCM. `Session.State.Wire` is a log of the writes that went out. Reads are a
-- list of `ReadEvent`s: what `tokio::select!` picked, round by round; `recv` on a list of events
-- that is used up gives `none`, it still waits. Random session ids and the HMAC of a room's code are
-- arguments. MessagePack, a UUID's text and CoreBluetooth are arguments too: a codec, a function, or
-- the callbacks as operations. Loops are recursion on a list of events, frames or links. On fuel are
-- `Streams.Chunks.chunks_upto`, the language's `slice::chunks`, which gets the length of the list,
-- and a client that calls `next` until the stream is over, `Streams.Reading.collect`, which gets the
-- number of frames.
--
-- Bounds: numbers of a session are compared by wrap-around, so what is said of streams of them assumes
-- that the numbers in play lie within half of the number space (2 ^ 31), as the code does; the window
-- reaches back 128 numbers, the ring holds 256 frames, a room's queue 500 messages.
--
-- Not modelled: connecting and listening over sockets, the Bluetooth adapter and GATT, mDNS, the
-- rest of the node (its tasks, its lifecycle and how a connection is taken in), the peers' file, the
-- trust store and the derivation of keys, the daemon's HTTP and WebSocket layer, the command line
-- but for its connection tracker and the choice of a role, the payload codec (rmp-serde), and the
-- JavaScript client.
pub mod Prelude
pub mod Protocol
pub mod Link
pub mod Node
pub mod Session
pub mod Reconnect
pub mod Tracker
pub mod Queue
pub mod Rooms
pub mod Topics
pub mod Scanner
pub mod Rpc
pub mod Streams
pub mod Connection
pub mod Transport
