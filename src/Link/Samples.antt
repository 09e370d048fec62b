-- ===== src/Link/Samples.antt =====
-- Links for the concrete runs.
use mlink.Prelude.{true}
use mlink.Link.{Link, ble, tcp, TransportCapabilities, default_health}

abbrev pub caps : TransportCapabilities
caps = record {
  max_peers = 4;
  throughput_bps = 1000000;
  latency_ms = 1;
  reliable = true;
  bidirectional = true;
}

abbrev pub wifi : Link
wifi = record { id = "tcp:1"; kind = tcp; caps = caps; health = default_health; created_at = 0 }

abbrev pub radio : Link
radio = record { id = "ble:1"; kind = ble; caps = caps; health = default_health; created_at = 0 }
