-- ===== src/Protocol.antt =====
-- crates/mlink-core/src/protocol: the wire format, the sequence numbers and the acknowledgements.
pub mod Errors
pub mod Types
pub mod Messages
pub mod Frame
pub mod Seq
pub mod Ack
mod Tests
