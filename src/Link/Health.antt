-- ===== src/Link/Health.antt =====
-- The moving averages of a link's health, and when a link counts as healthy.
use mlink.Prelude.{
  ℕ, zero, suc, ◌+◌, ◌-◌, ◌/◌, ◌^◌, ◌<◌, ◌≤◌, ◌≡◌, refl, arith, min, max, true, false, List, [],
  ◌∷◌, ◌++◌, All, length,
}
use mlink.Link.{
  Link, LinkHealth, ema_u32, ema_err, record_rtt, record_success, record_error, inc_inflight,
  dec_inflight, is_healthy,
}

-- The average of the round trips stays between the two values that it mixes.
pub ema_u32_between :
    (prev sample : ℕ)
    → prev < 2 ^ 32
    → sample < 2 ^ 32
    → 0 < prev
    → (min prev sample ≤ ema_u32 prev sample) × (ema_u32 prev sample ≤ max prev sample)
unfolding ema_u32
ema_u32_between prev sample h k p = ground arith

pub ema_err_up : (prev : ℕ) → prev ≤ 1000 → ema_err prev 1000 ≡ prev + (1000 - prev) / 8
unfolding ema_err
ema_err_up prev h = ground arith

pub ema_err_down : (prev : ℕ) → prev ≤ 1000 → ema_err prev 0 ≡ prev - (prev + 7) / 8
unfolding ema_err
ema_err_down prev h = ground arith

-- The ranges of the numbers of a link's health.
pub record IsHealth (h : LinkHealth) : Type 0 where
  pub rtt_lt : h.rtt_ema_us < 2 ^ 32
  pub err_le : h.err_rate_milli ≤ 1000
  pub inflight_lt : h.inflight < 2 ^ 16

abbrev pub IsLink : Link → Type 0
IsLink l = IsHealth l.health

pub ema_u32-lt : (prev sample : ℕ) → sample < 2 ^ 32 → ema_u32 prev sample < 2 ^ 32
unfolding ema_u32
ema_u32-lt prev sample h = ground arith

pub ema_err-le : (prev sample : ℕ) → ema_err prev sample ≤ 1000
unfolding ema_err
ema_err-le prev sample = ground arith

pub record_success-IsLink : (l : Link) (now : ℕ) → IsLink l → IsLink (record_success l now)
unfolding record_success
record_success-IsLink l now w = record {
  rtt_lt = w.rtt_lt;
  err_le = ema_err-le _ 0;
  inflight_lt = w.inflight_lt;
}

pub record_error-IsLink : (l : Link) → IsLink l → IsLink (record_error l)
unfolding record_error
record_error-IsLink l w = record {
  rtt_lt = w.rtt_lt;
  err_le = ema_err-le _ 1000;
  inflight_lt = w.inflight_lt;
}

-- The events of a link's life.
pub data Event : Type 0 where
  rtt : ℕ → ℕ → Event
  success : ℕ → Event
  failure : Event
  start : Event
  finish : Event

unfoldable pub apply_event : Link → Event → Link
unfolding record_rtt record_success record_error inc_inflight dec_inflight
apply_event l (rtt us now) = record_rtt l us now
apply_event l (success now) = record_success l now
apply_event l failure = record_error l
apply_event l start = inc_inflight l
apply_event l finish = dec_inflight l

abbrev pub IsEvent : Event → Type 0
IsEvent (rtt us now) = us < 2 ^ 32
IsEvent _ = Unit

apply_event-IsLink : (l : Link) (e : Event) → IsEvent e → IsLink l → IsLink (apply_event l e)
unfolding apply_event
apply_event-IsLink l (rtt us now) h w = record {
  rtt_lt = ema_u32-lt _ us h;
  err_le = ema_err-le _ 0;
  inflight_lt = w.inflight_lt;
}
apply_event-IsLink l (success now) h w = record_success-IsLink l now w
apply_event-IsLink l failure h w = record_error-IsLink l w
apply_event-IsLink l start h w = record {
  rtt_lt = w.rtt_lt;
  err_le = w.err_le;
  inflight_lt = omega arith;
}
apply_event-IsLink l finish h w = record {
  rtt_lt = w.rtt_lt;
  err_le = w.err_le;
  inflight_lt = omega (arith, w.inflight_lt);
}

abbrev pub apply_events : Link → List Event → Link
apply_events l [] = l
apply_events l (e ∷ es) = apply_events (apply_event l e) es

-- Whatever happens to a link, the error rate stays within 1000 and no counter leaves its width.
pub apply_events-IsLink :
    (es : List Event) (l : Link) → All IsEvent es → IsLink l → IsLink (apply_events l es)
apply_events-IsLink [] l h w = w
apply_events-IsLink (e ∷ es) l h w =
    apply_events-IsLink es (apply_event l e) h.1 (apply_event-IsLink l e h.0 w)

abbrev pub fail_times : ℕ → Link → Link
fail_times zero l = l
fail_times (suc k) l = record_error (fail_times k l)

-- The error rate after `k` failures from rate 0.
low_rate : ℕ → ℕ
low_rate zero = 0
low_rate (suc k) = low_rate k + (1000 - low_rate k) / 8

low_rate-le : (k : ℕ) → low_rate k ≤ 1000
unfolding low_rate
low_rate-le zero = omega arith
low_rate-le (suc k) = omega (arith, low_rate-le k)

rate_floor :
    (k : ℕ) (l : Link)
    → IsLink l
    → (low_rate k ≤ (fail_times k l).health.err_rate_milli)
      × ((fail_times k l).health.err_rate_milli ≤ 1000)
unfolding low_rate record_error
rate_floor zero l w = (omega arith, w.err_le)
rate_floor (suc k) l w =
    ground (arith, rate_floor k l w, ema_err_up (fail_times k l).health.err_rate_milli)

low_rate_high : (k : ℕ) → 500 ≤ low_rate (suc (suc (suc (suc (suc (suc k))))))
unfolding low_rate
low_rate_high zero = omega arith
low_rate_high (suc k) = omega (arith, low_rate_high k, low_rate-le k)

-- Six failures in a row, and any number more, make every link unhealthy, whenever it is asked.
pub six_failures :
    (k : ℕ) (l : Link) (now : ℕ) → IsLink l → 6 ≤ k → is_healthy (fail_times k l) now ≡ false
unfolding is_healthy
six_failures (suc (suc (suc (suc (suc (suc k)))))) l now w h =
    ground (arith, low_rate_high k, rate_floor (suc (suc (suc (suc (suc (suc k)))))) l w)
six_failures k l now w h = absurd (omega arith)

-- Writes and reads that succeed at the given times.
abbrev pub succeed_at : List ℕ → Link → Link
succeed_at [] l = l
succeed_at (t ∷ ts) l = succeed_at ts (record_success l t)

-- A bound on the error rate after `k` successes from rate `a`.
decay : ℕ → ℕ → ℕ
decay zero a = a
decay (suc k) a = decay k (a - (a + 7) / 8)

decay-le : (k a : ℕ) → decay k a ≤ a
unfolding decay
decay-le zero a = omega arith
decay-le (suc k) a = omega (arith, decay-le k (a - (a + 7) / 8))

decay_five : (k : ℕ) → decay (suc (suc (suc (suc (suc k))))) 1000 ≤ 511
unfolding decay
decay_five k = decay-le k 511

rate_ceiling :
    (ts : List ℕ) (l : Link) (a : ℕ)
    → l.health.err_rate_milli ≤ a
    → a ≤ 1000
    → (succeed_at ts l).health.err_rate_milli ≤ decay (length ts) a
unfolding decay record_success
rate_ceiling [] l a h k = h
rate_ceiling (t ∷ ts) l a h k =
    rate_ceiling ts (record_success l t) (a - (a + 7) / 8)
      (rw (ema_err_down l.health.err_rate_milli (omega arith)) (omega arith)) (omega arith)

succeed_at-append :
    (ts us : List ℕ) (l : Link) → succeed_at (ts ++ us) l ≡ succeed_at us (succeed_at ts l)
succeed_at-append [] us l = refl
succeed_at-append (t ∷ ts) us l = succeed_at-append ts us (record_success l t)

healthy_now :
    (l : Link) (t : ℕ) → l.health.err_rate_milli ≤ 511 → is_healthy (record_success l t) t ≡ true
unfolding is_healthy record_success
healthy_now l t h = ground (arith, ema_err_down l.health.err_rate_milli)

-- Six successes in a row, and any number more, make every link healthy again, at the time of the
-- last of them.
pub six_successes :
    (ts : List ℕ) (t : ℕ) (l : Link)
    → IsLink l
    → 5 ≤ length ts
    → is_healthy (succeed_at (ts ++ (t ∷ [])) l) t ≡ true
six_successes (a ∷ b ∷ c ∷ d ∷ e ∷ ts) t l w h =
    rw (succeed_at-append (a ∷ b ∷ c ∷ d ∷ e ∷ ts) (t ∷ []) l) (
      healthy_now (succeed_at (a ∷ b ∷ c ∷ d ∷ e ∷ ts) l) t (
        omega (
          arith,
          rate_ceiling (a ∷ b ∷ c ∷ d ∷ e ∷ ts) l 1000 w.err_le (omega arith),
          decay_five (length ts),
        )))
six_successes ts t l w h = absurd (omega arith)
