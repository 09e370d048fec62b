-- ===== src/Tracker/Retries.antt =====
-- How often a peer is dialled.
use mlink.Prelude.{
  ℕ, ◌+◌, ◌≤◌, ◌≡◌, arith, String, List, [], ◌∷◌, Option, none, some, if◌then◌else◌, str_eq, eq_iff,
  lookup-insert, lookup-delete,
}
use mlink.Tracker.{
  ConnTracker, new_tracker, max_retries, bump_attempt, attempts_of, on_dial_ok, on_dial_err,
  mark_room_mismatch_dial, on_accept_begin, on_accept_ok, on_accept_err, on_peer_connected,
  on_peer_disconnected,
}

-- What a command tells the tracker.
pub data Step : Type 0 where
  bump dial_err mismatch accept_begin accept_err peer_up peer_down : String → Step
  dial_ok accept_ok : String → String → Step

abbrev pub apply_step : ConnTracker → Step → ConnTracker
apply_step c (bump w) = (bump_attempt c w).1
apply_step c (dial_err w) = on_dial_err c w
apply_step c (mismatch w) = mark_room_mismatch_dial c w
apply_step c (accept_begin w) = on_accept_begin c w
apply_step c (accept_err w) = on_accept_err c w
apply_step c (peer_up a) = on_peer_connected c a
apply_step c (peer_down a) = on_peer_disconnected c a
apply_step c (dial_ok w a) = on_dial_ok c w a
apply_step c (accept_ok w a) = on_accept_ok c w a

abbrev granted_one : Option ℕ → ℕ
granted_one none = 0
granted_one (some n) = 1

-- The dials of `w` that were granted since the last handshake with it that succeeded.
abbrev dials_after : String → ConnTracker → ℕ → Step → ℕ
dials_after w c k (bump v) = if str_eq v w then k + granted_one (bump_attempt c v).0 else k
dials_after w c k (dial_ok v a) = if str_eq v w then 0 else k
dials_after w c k (accept_ok v a) = if str_eq v w then 0 else k
dials_after w c k other = k

abbrev pub dials : String → ConnTracker → ℕ → List Step → ℕ
dials w c k [] = k
dials w c k (s ∷ ss) = dials w (apply_step c s) (dials_after w c k s) ss

module _ (w : String) where
  record IsCounted (c : ConnTracker) (k : ℕ) : Type 0 where
    pub dials_le : k ≤ attempts_of c w
    pub attempts_le : attempts_of c w ≤ max_retries

  attempts-bump :
      (c : ConnTracker) (v : String)
      → attempts_of (bump_attempt c v).1 w ≡ (
          if str_eq v w
          then attempts_of c w + granted_one (bump_attempt c v).0
          else attempts_of c w)
  unfolding bump_attempt
  attempts-bump c v = ground (
    arith,
    eq_iff v w,
    lookup-insert w v (attempts_of c v) c.attempts,
    lookup-insert w v (attempts_of c v + 1) c.attempts,
  )

  bump_limit :
      (c : ConnTracker) (v : String)
      → attempts_of c v ≤ max_retries
      → attempts_of c v + granted_one (bump_attempt c v).0 ≤ max_retries
  unfolding bump_attempt
  bump_limit c v h = ground (arith, h)

  step-IsCounted :
      (c : ConnTracker) (k : ℕ) (s : Step)
      → IsCounted c k
      → IsCounted (apply_step c s) (dials_after w c k s)
  unfolding on_dial_ok on_dial_err mark_room_mismatch_dial on_accept_begin on_accept_ok
      on_accept_err on_peer_connected on_peer_disconnected
  step-IsCounted c k (bump v) h = ground (arith, h, attempts-bump c v, bump_limit c v, eq_iff v w)
  step-IsCounted c k (mismatch v) h = ground (arith, h, lookup-insert w v max_retries c.attempts)
  step-IsCounted c k (dial_ok v a) h = ground (arith, h, lookup-delete w v c.attempts)
  step-IsCounted c k (accept_ok v a) h = ground (arith, h, lookup-delete w v c.attempts)
  step-IsCounted c k other h = ground (arith, h)

  steps-IsCounted :
      (ss : List Step) (c : ConnTracker) (k : ℕ) → IsCounted c k → dials w c k ss ≤ max_retries
  steps-IsCounted [] c k h = ground (arith, h)
  steps-IsCounted (s ∷ ss) c k h =
      steps-IsCounted ss (apply_step c s) (dials_after w c k s) (step-IsCounted c k s h)

-- Whatever happens, a peer is dialled at most three times without a handshake that succeeds.
pub dials-le-max_retries : (w : String) (ss : List Step) → dials w new_tracker 0 ss ≤ max_retries
dials-le-max_retries w ss =
    steps-IsCounted w ss new_tracker 0
      (record { dials_le = omega arith; attempts_le = omega arith })
