-- ===== src/Reconnect/Schedule.antt =====
-- The delays over a whole run of attempts.
use mlink.Prelude.{
  ℕ, ◌+◌, ◌-◌, ◌^◌, ◌<◌, ◌≤◌, ◌≡◌, refl, arith, List, [], ◌∷◌, none, some, if◌then◌else◌, leb, min,
  All, length,
}
use mlink.Reconnect.{
  foreground, background, ReconnectPolicy, new_policy, foreground_delay, foreground_duration,
  background_duration, background_interval, settle_mode, delay_of, next_delay,
}

-- Attempts at the given times.
abbrev pub ask_all : ReconnectPolicy → List ℕ → ReconnectPolicy
ask_all p [] = p
ask_all p (t ∷ ts) = ask_all (next_delay p t).1 ts

-- In the foreground, started at `start`, after `n` attempts.
record InForeground (start n : ℕ) (p : ReconnectPolicy) : Type 0 where
  pub mode_eq : p.state.mode ≡ foreground
  pub start_eq : p.state.started_at ≡ start
  pub attempt_eq : p.state.attempt ≡ min n (2 ^ 32 - 1)

record InBackground (start : ℕ) (p : ReconnectPolicy) : Type 0 where
  pub mode_eq : p.state.mode ≡ background
  pub start_eq : p.background_started_at ≡ some start

next_delay-foreground :
    (start n : ℕ) (p : ReconnectPolicy) (t : ℕ)
    → t < start + foreground_duration
    → InForeground start n p
    → ((next_delay p t).0 ≡ some (foreground_delay (min n (2 ^ 32 - 1))))
      × InForeground start (n + 1) (next_delay p t).1
unfolding next_delay settle_mode delay_of
next_delay-foreground start n p t h w = ground (arith, w)

next_delay-background :
    (start : ℕ) (p : ReconnectPolicy) (t : ℕ)
    → InBackground start p
    → ((next_delay p t).0
        ≡ (if leb background_duration (t - start) then none else some background_interval))
      × InBackground start (next_delay p t).1
unfolding next_delay settle_mode delay_of
next_delay-background start p t w = ground (arith, w)

next_delay-enters :
    (start n : ℕ) (p : ReconnectPolicy) (t : ℕ)
    → start + foreground_duration ≤ t
    → InForeground start n p
    → ((next_delay p t).0 ≡ some background_interval) × InBackground t (next_delay p t).1
unfolding next_delay settle_mode delay_of
next_delay-enters start n p t h w = ground (arith, w)

ask_all-InForeground :
    (start : ℕ) (ts : List ℕ) (n : ℕ) (p : ReconnectPolicy)
    → All (λ t. t < start + foreground_duration) ts
    → InForeground start n p
    → InForeground start (n + length ts) (ask_all p ts)
ask_all-InForeground start [] n p h w = ground (arith, w)
ask_all-InForeground start (t ∷ ts) n p h w =
    let q : n + length (t ∷ ts) ≡ n + 1 + length ts = omega arith in
    rw q (
      ask_all-InForeground start ts (n + 1) (next_delay p t).1 h.1
        (next_delay-foreground start n p t h.0 w).1)

ask_all-InBackground :
    (start : ℕ) (ts : List ℕ) (p : ReconnectPolicy)
    → InBackground start p
    → InBackground start (ask_all p ts)
ask_all-InBackground start [] p w = w
ask_all-InBackground start (t ∷ ts) p w =
    ask_all-InBackground start ts (next_delay p t).1 (next_delay-background start p t w).1

new_policy-InForeground :
    (start : ℕ) (ts : List ℕ)
    → All (λ t. t < start + foreground_duration) ts
    → InForeground start (length ts) (ask_all (new_policy start) ts)
new_policy-InForeground start ts h =
    let e : length ts ≡ 0 + length ts = omega arith in
    rw e (
      ask_all-InForeground start ts 0 (new_policy start) h
        (record { mode_eq = refl; start_eq = refl; attempt_eq = omega arith }))

-- In the first five minutes every attempt is granted: the first at once, and each further one after
-- a delay that doubles from one second up to 60 seconds, by the number of attempts so far.
pub foreground_schedule :
    (start : ℕ) (ts : List ℕ) (t : ℕ)
    → All (λ u. u < start + foreground_duration) ts
    → t < start + foreground_duration
    → (next_delay (ask_all (new_policy start) ts) t).0
      ≡ some (foreground_delay (min (length ts) (2 ^ 32 - 1)))
foreground_schedule start ts t h k =
    (next_delay-foreground start (length ts) (ask_all (new_policy start) ts) t k
      (new_policy-InForeground start ts h)).0

-- The first attempt after five minutes, at `t`, starts the background: from then on attempts are
-- granted every two minutes for half an hour and refused ever after, whatever was asked between.
pub background_schedule :
    (start : ℕ) (ts : List ℕ) (t : ℕ) (us : List ℕ) (u : ℕ)
    → All (λ v. v < start + foreground_duration) ts
    → start + foreground_duration ≤ t
    → ((next_delay (ask_all (new_policy start) ts) t).0 ≡ some background_interval)
      × ((next_delay (ask_all (next_delay (ask_all (new_policy start) ts) t).1 us) u).0
          ≡ (if leb background_duration (u - t) then none else some background_interval))
background_schedule start ts t us u h k =
    let p = ask_all (new_policy start) ts in
    let (d, w) = next_delay-enters start (length ts) p t k (new_policy-InForeground start ts h) in
    (
      d,
      (next_delay-background t (ask_all (next_delay p t).1 us) u
          (ask_all-InBackground t us (next_delay p t).1 w)).0,
    )
