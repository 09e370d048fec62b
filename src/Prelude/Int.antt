-- ===== src/Prelude/Int.antt =====
-- Signed integers over the native numbers, and what the source does with an `i64`: differences,
-- arithmetic shifts, saturating operations, division that truncates.
use mlink.Prelude.{ℕ, suc, ◌+◌, ◌-◌, ◌*◌, ◌/◌, ◌^◌, ◌≤◌, ltb, leb, if◌then◌else◌, Bool}

-- `negsuc n` is -(n + 1).
pub data ℤ : Type 0 where
  pos : ℕ → ℤ
  negsuc : ℕ → ℤ

abbrev pub pos_part : ℤ → ℕ
pos_part (pos n) = n
pos_part (negsuc n) = 0

abbrev pub neg_part : ℤ → ℕ
neg_part (pos n) = 0
neg_part (negsuc n) = suc n

-- a - b, as an integer.
abbrev pub sub_ℕ : ℕ → ℕ → ℤ
sub_ℕ a b = if leb b a then pos (a - b) else negsuc (b - a - 1)

infixl 65 ◌+ℤ◌ ◌-ℤ◌
infixl 70 ◌*ℤ◌
infix 50 ◌≤ℤ◌
abbrev pub ◌+ℤ◌ : ℤ → ℤ → ℤ
a +ℤ b = sub_ℕ (pos_part a + pos_part b) (neg_part a + neg_part b)

abbrev pub ◌-ℤ◌ : ℤ → ℤ → ℤ
a -ℤ b = sub_ℕ (pos_part a + neg_part b) (neg_part a + pos_part b)

abbrev pub ◌*ℤ◌ : ℤ → ℤ → ℤ
a *ℤ b =
    sub_ℕ (pos_part a * pos_part b + neg_part a * neg_part b)
      (pos_part a * neg_part b + neg_part a * pos_part b)

abbrev pub ◌≤ℤ◌ : ℤ → ℤ → Type 0
a ≤ℤ b = pos_part a + neg_part b ≤ pos_part b + neg_part a

abbrev pub leb_ℤ : ℤ → ℤ → Bool
leb_ℤ a b = leb (pos_part a + neg_part b) (pos_part b + neg_part a)

-- `a >> 3`, which rounds down.
abbrev pub shift_right_3 : ℤ → ℤ
shift_right_3 (pos n) = pos (n / 8)
shift_right_3 (negsuc n) = negsuc (n / 8)

-- `a.clamp(0, hi)`, as a number.
abbrev pub clamp_from_zero : ℕ → ℤ → ℕ
clamp_from_zero hi (pos n) = if ltb hi n then hi else n
clamp_from_zero hi (negsuc n) = 0

abbrev pub i64_max : ℕ
i64_max = 2 ^ 63 - 1

-- The nearest `i64`.
abbrev pub saturate : ℤ → ℤ
saturate (pos n) = if ltb i64_max n then pos i64_max else pos n
saturate (negsuc n) = if ltb i64_max n then negsuc i64_max else negsuc n

abbrev pub minus : ℕ → ℤ
minus n = sub_ℕ 0 n

-- Division of a `i64` by a positive number truncates towards 0.
abbrev pub div_trunc : ℤ → ℕ → ℤ
div_trunc (pos n) d = pos (n / d)
div_trunc (negsuc n) d = minus (suc n / d)
