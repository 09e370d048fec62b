-- ===== src/Protocol/Messages.antt =====
-- crates/mlink-core/src/protocol/types.rs: the records that travel as payloads. MessagePack is not
-- the repository's code: whoever encodes or decodes one takes the two functions as arguments.
use mlink.Prelude.{ℕ, String, List, Bool, Option}

pub record StreamResumeInfo : Type 0 where
  pub stream_id : ℕ
  pub received_bitmap : List ℕ

pub record Handshake : Type 0 where
  pub app_uuid : String
  pub version : ℕ
  pub mtu : ℕ
  pub compress : Bool
  pub encrypt : Bool
  pub last_seq : ℕ
  pub resume_streams : List StreamResumeInfo
  pub room_hash : Option (List ℕ)
  pub session_id : Option (List ℕ)
  pub session_last_seq : ℕ

pub record StreamInfo : Type 0 where
  pub stream_id : ℕ
  pub total_chunks : ℕ
  pub total_size : ℕ
  pub checksum_algo : String
