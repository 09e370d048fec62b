-- ===== src/Session.antt =====
-- crates/mlink-core/src/core/session: the links to one peer as one ordered, deduplicated,
-- acknowledged channel, and the table of the sessions.
pub mod State
pub mod Pick
pub mod Send
pub mod Recv
pub mod Manager
