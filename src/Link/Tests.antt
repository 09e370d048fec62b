-- ===== src/Link/Tests.antt =====
-- Concrete links: crates/mlink-core/src/core/link.rs.
use mlink.Prelude.{◌≡◌, ◌↔◌, arith, some}
use mlink.Link.Samples.{caps}
use mlink.Link.{tcp, as_wire, from_wire, Link}
use mlink.Link.Wire.{from_wire_iff}
use mlink.Link.Health.{IsLink}

abbrev link : Link
link = record {
  id = "tcp:x:1";
  kind = tcp;
  caps = caps;
  health = record { rtt_ema_us = 800; err_rate_milli = 100; last_ok_at_ms = 20; inflight = 1 };
  created_at = 0;
}

link-IsLink : IsLink link
link-IsLink = record { rtt_lt = omega arith; err_le = omega arith; inflight_lt = omega arith }

tcp_wire_name : (from_wire "tcp" ≡ some tcp) ↔ (as_wire tcp ≡ "tcp")
tcp_wire_name = from_wire_iff "tcp" tcp
