-- ===== src/Link.antt =====
-- crates/mlink-core/src/core/link.rs: one transport link to a peer, with its health.
-- The connection is not code of the repository's core: what a write or a read of it answers comes
-- in as an argument of `send` and `recv`. The clock comes in as `now`, in milliseconds.
pub mod Wire
pub mod Health
pub mod Score
pub mod Samples
mod Tests
use mlink.Prelude.{
  ℕ, ◌+◌, ◌-◌, ◌<◌, ◌&&◌, ◌^◌, min, String, List, Bool, true, false, ltb, leb, ◌==◌, if◌then◌else◌,
  Option, none, some, str_eq,
}
use mlink.Prelude.Int.{
  ℤ, pos, negsuc, ◌+ℤ◌, ◌-ℤ◌, ◌*ℤ◌, sub_ℕ, shift_right_3, clamp_from_zero, i64_max, saturate,
  div_trunc,
}
use mlink.Protocol.Errors.{Result, ok, err}

pub data TransportKind : Type 0 where
  ble tcp ipc mock : TransportKind

unfoldable pub as_wire : TransportKind → String
as_wire ble = "ble"
as_wire tcp = "tcp"
as_wire ipc = "ipc"
as_wire mock = "mock"

unfoldable pub from_wire : String → Option TransportKind
from_wire s =
    if str_eq s "ble"
    then some ble
    else if str_eq s "tcp"
    then some tcp
    else if str_eq s "ipc"
    then some ipc
    else if str_eq s "mock"
    then some mock
    else none

-- crates/mlink-core/src/transport/trait.rs
pub record TransportCapabilities : Type 0 where
  pub max_peers : ℕ
  pub throughput_bps : ℕ
  pub latency_ms : ℕ
  pub reliable : Bool
  pub bidirectional : Bool

pub record LinkHealth : Type 0 where
  pub rtt_ema_us : ℕ
  pub err_rate_milli : ℕ
  pub last_ok_at_ms : ℕ
  pub inflight : ℕ

abbrev pub default_health : LinkHealth
default_health = record { rtt_ema_us = 0; err_rate_milli = 0; last_ok_at_ms = 0; inflight = 0 }

abbrev pub link_stale_ms : ℕ
link_stale_ms = 5000

abbrev pub link_unhealthy_err_milli : ℕ
link_unhealthy_err_milli = 500

pub record Link : Type 0 where
  pub id : String
  pub kind : TransportKind
  pub caps : TransportCapabilities
  pub health : LinkHealth
  pub created_at : ℕ

unfoldable pub new_link : String → TransportKind → TransportCapabilities → ℕ → Link
new_link id kind caps now = record {
  id = id;
  kind = kind;
  caps = caps;
  health = default_health;
  created_at = now;
}

abbrev pub now_ms : Link → ℕ → ℕ
now_ms l now = now - l.created_at

unfoldable pub ema_u32 : ℕ → ℕ → ℕ
ema_u32 prev sample =
    if prev == 0
    then sample
    else (let diff = sub_ℕ sample prev in
        clamp_from_zero (2 ^ 32 - 1) (pos prev +ℤ shift_right_3 diff))

unfoldable pub ema_err : ℕ → ℕ → ℕ
ema_err prev sample =
    let diff = sub_ℕ sample prev in clamp_from_zero 1000 (pos prev +ℤ shift_right_3 diff)

unfoldable pub record_rtt : Link → ℕ → ℕ → Link
record_rtt l rtt_us now = record l {
  health = record (l.health) {
    rtt_ema_us = ema_u32 l.health.rtt_ema_us rtt_us;
    err_rate_milli = ema_err l.health.err_rate_milli 0;
    last_ok_at_ms = now_ms l now;
  };
}

unfoldable pub record_success : Link → ℕ → Link
record_success l now = record l {
  health = record (l.health) {
    err_rate_milli = ema_err l.health.err_rate_milli 0;
    last_ok_at_ms = now_ms l now;
  };
}

unfoldable pub record_error : Link → Link
record_error l = record l {
  health = record (l.health) { err_rate_milli = ema_err l.health.err_rate_milli 1000 };
}

-- `saturating_add` and `saturating_sub` on a `u16`.
unfoldable pub inc_inflight : Link → Link
inc_inflight l = record l {
  health = record (l.health) { inflight = min (l.health.inflight + 1) (2 ^ 16 - 1) };
}

unfoldable pub dec_inflight : Link → Link
dec_inflight l = record l { health = record (l.health) { inflight = l.health.inflight - 1 } }

unfoldable pub score_from : TransportCapabilities → LinkHealth → ℤ
score_from caps h =
    let tp = min caps.throughput_bps i64_max in
    let success_factor = sub_ℕ 1000 h.err_rate_milli in
    let base = div_trunc (saturate (pos tp *ℤ success_factor)) 1000 in
    saturate (base -ℤ div_trunc (pos h.rtt_ema_us) 10)

abbrev pub score : Link → ℤ
score l = score_from l.caps l.health

unfoldable pub is_healthy : Link → ℕ → Bool
is_healthy l now =
    let h = l.health in
    if leb link_unhealthy_err_milli h.err_rate_milli
    then false
    else if ltb 0 h.rtt_ema_us && leb link_stale_ms (now_ms l now - h.last_ok_at_ms)
    then false
    else true

-- The link after a write or a read that answered `r`.
unfoldable pub after_io {ℓ} : {A : Type ℓ} → Link → ℕ → Result A → Link
unfolding record_success record_error
after_io l now (ok v) = record_success l now
after_io l now (err e) = record_error l
