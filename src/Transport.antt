-- ===== src/Transport.antt =====
-- crates/mlink-core/src/transport/: the connections under the links, and what discovery finds.
pub mod Framed
pub mod Hex
pub mod Ble
pub mod Peripheral
mod Tests
use mlink.Prelude.{ℕ, String, List, Option}
use mlink.Prelude.Int.{ℤ}

pub record DiscoveredPeer : Type 0 where
  pub id : String
  pub name : String
  pub rssi : Option ℤ
  pub metadata : List ℕ
