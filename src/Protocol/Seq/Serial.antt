-- ===== src/Protocol/Seq/Serial.antt =====
-- Numbers without a width, as the wrap-around of 32 bits shows them: the distance between two of
-- them that are near to one another.
use mlink.Prelude.{ℕ, ◌+◌, ◌-◌, ◌%◌, ◌<◌, ◌≤◌, ◌≡◌, arith}
use mlink.Protocol.Seq.{u32_mod, wrapping_sub}

-- The distance from `b` up to `a`, below the modulus, is read off their remainders.
pub wrapping_sub-ahead :
    (a b : ℕ) → b ≤ a → a < b + u32_mod → wrapping_sub (a % u32_mod) (b % u32_mod) ≡ a - b
wrapping_sub-ahead a b h k = omega arith

-- From a number to a smaller one the distance goes round.
pub wrapping_sub-behind :
    (a b : ℕ)
    → a < b
    → b < a + u32_mod
    → wrapping_sub (a % u32_mod) (b % u32_mod) ≡ u32_mod - (b - a)
wrapping_sub-behind a b h k = omega arith

pub wrapping_sub-lt : (a b : ℕ) → wrapping_sub a b < u32_mod
wrapping_sub-lt a b = omega arith
