-- ===== src/Link/Score.antt =====
-- The score by which the scheduler ranks links.
use mlink.Prelude.{ℕ, ◌-◌, ◌*◌, ◌/◌, ◌^◌, ◌<◌, ◌≤◌, ◌≡◌, arith, min}
use native.Mathlib.Nat.{mul-le-mul_left}
use mlink.Prelude.Int.{sub_ℕ, ◌≤ℤ◌, i64_max}
use mlink.Link.{TransportCapabilities, LinkHealth, score_from}

-- The throughput part of the score, as a number.
abbrev base_score : ℕ → ℕ → ℕ
base_score tp err = min (tp * (1000 - err)) i64_max / 1000

score_from-base :
    (caps : TransportCapabilities) (h : LinkHealth)
    → h.err_rate_milli ≤ 1000
    → h.rtt_ema_us < 2 ^ 32
    → score_from caps h
      ≡ sub_ℕ (base_score (min caps.throughput_bps i64_max) h.err_rate_milli) (h.rtt_ema_us / 10)
unfolding score_from
score_from-base caps h e r = ground arith

le_scaled : (k m n : ℕ) → m ≤ n → k * m ≤ k * n
le_scaled k m n h = mul-le-mul_left k h

base_score_mono : (tp e e' : ℕ) → e ≤ e' → base_score tp e' ≤ base_score tp e
base_score_mono tp e e' h = omega (arith, le_scaled tp (1000 - e') (1000 - e) (omega arith))

-- Of two states of links with the same capabilities, the one with no higher error rate and no
-- longer round trip scores at least as much, also where the throughput saturates.
pub score_from_mono :
    (caps : TransportCapabilities) (h k : LinkHealth)
    → h.err_rate_milli ≤ k.err_rate_milli
    → k.err_rate_milli ≤ 1000
    → h.rtt_ema_us ≤ k.rtt_ema_us
    → k.rtt_ema_us < 2 ^ 32
    → score_from caps k ≤ℤ score_from caps h
score_from_mono caps h k e e' r r' =
    rw (score_from-base caps h (omega arith) (omega arith), score_from-base caps k e' r')
      (ground (
        arith,
        base_score_mono (min caps.throughput_bps i64_max) h.err_rate_milli k.err_rate_milli,
      ))
