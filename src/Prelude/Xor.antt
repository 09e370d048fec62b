-- ===== src/Prelude/Xor.antt =====
-- Exclusive or, digit by digit, and the checksum that folds it over bytes.
use Prim.Native.Nat.{ℕ, zero, suc, ◌+◌, ◌*◌, ◌/◌, ◌%◌, ◌≤◌, ◌<◌, bit_xor, differ, bit_xor-bitwise}
use mathlib.Core.Path.{◌≡◌, refl, sym, ap, ◌∙◌}
use mathlib.Core.List.{List, [], ◌∷◌, ◌++◌}
use native.Mathlib.Omega.{arith}
use mlink.Prelude.Bits.{lowest_digit, div_two_digit}

bit_xor_digit : (x y : ℕ) → bit_xor x y ≡ bit_xor (x / 2) (y / 2) * 2 + differ (x % 2) (y % 2)
bit_xor_digit (suc x) y = simp bit_xor-bitwise (lowest_digit (λ t. t) differ x y)
bit_xor_digit zero y = simp bit_xor-bitwise (omega arith)

differ-lt : (x y : ℕ) → x < 2 → y < 2 → differ x y < 2
differ-lt zero y h k = k
differ-lt (suc zero) zero h k = omega arith
differ-lt (suc zero) (suc zero) h k = omega arith
differ-lt (suc zero) (suc (suc y)) h k = absurd (omega arith)
differ-lt (suc (suc x)) y h k = absurd (omega arith)

differ_assoc : (x y z : ℕ) → x < 2 → y < 2 → z < 2 → differ (differ x y) z ≡ differ x (differ y z)
differ_assoc zero y z h k l = refl
differ_assoc (suc zero) zero z h k l = refl
differ_assoc (suc zero) (suc zero) zero h k l = refl
differ_assoc (suc zero) (suc zero) (suc zero) h k l = refl
differ_assoc (suc zero) (suc zero) (suc (suc z)) h k l = absurd (omega arith)
differ_assoc (suc zero) (suc (suc y)) z h k l = absurd (omega arith)
differ_assoc (suc (suc x)) y z h k l = absurd (omega arith)

xor_half : (x y : ℕ) → bit_xor x y / 2 ≡ bit_xor (x / 2) (y / 2)
xor_half x y =
    div_two_digit (bit_xor x y) (bit_xor (x / 2) (y / 2)) (differ (x % 2) (y % 2))
      (bit_xor_digit x y) (differ-lt (x % 2) (y % 2) (omega arith) (omega arith))

xor_last : (x y : ℕ) → bit_xor x y % 2 ≡ differ (x % 2) (y % 2)
xor_last x y =
    omega (arith, bit_xor_digit x y, differ-lt (x % 2) (y % 2) (omega arith) (omega arith))

left_digit :
    (a b c : ℕ)
    → bit_xor (bit_xor a b) c
      ≡ bit_xor (bit_xor (a / 2) (b / 2)) (c / 2) * 2 + differ (differ (a % 2) (b % 2)) (c % 2)
left_digit a b c = rw (xor_half a b, xor_last a b) at (bit_xor_digit (bit_xor a b) c)

right_digit :
    (a b c : ℕ)
    → bit_xor a (bit_xor b c)
      ≡ bit_xor (a / 2) (bit_xor (b / 2) (c / 2)) * 2 + differ (a % 2) (differ (b % 2) (c % 2))
right_digit a b c = rw (xor_half b c, xor_last b c) at (bit_xor_digit a (bit_xor b c))

xor_assoc_below :
    (k a b c : ℕ) → a ≤ k → b ≤ k → c ≤ k → bit_xor (bit_xor a b) c ≡ bit_xor a (bit_xor b c)
xor_assoc_below zero zero zero zero h1 h2 h3 = refl
xor_assoc_below zero (suc a) b c h1 h2 h3 = absurd (omega arith)
xor_assoc_below zero zero (suc b) c h1 h2 h3 = absurd (omega arith)
xor_assoc_below zero zero zero (suc c) h1 h2 h3 = absurd (omega arith)
xor_assoc_below (suc k) a b c h1 h2 h3 = omega (
  arith,
  left_digit a b c,
  right_digit a b c,
  xor_assoc_below k (a / 2) (b / 2) (c / 2) (omega arith) (omega arith) (omega arith),
  differ_assoc (a % 2) (b % 2) (c % 2) (omega arith) (omega arith) (omega arith),
)

pub xor_assoc : (a b c : ℕ) → bit_xor (bit_xor a b) c ≡ bit_xor a (bit_xor b c)
xor_assoc a b c = xor_assoc_below (a + b + c) a b c (omega arith) (omega arith) (omega arith)

xor_zero_below : (k a : ℕ) → a ≤ k → bit_xor a 0 ≡ a
xor_zero_below zero zero h = refl
xor_zero_below zero (suc a) h = absurd (omega arith)
xor_zero_below (suc k) a h =
    ground (arith, bit_xor_digit a 0, xor_zero_below k (a / 2) (omega arith), differ-lt (a % 2) 0)

pub xor_zero : (a : ℕ) → bit_xor a 0 ≡ a
xor_zero a = xor_zero_below a a (omega arith)

abbrev pub xor_all : ℕ → List ℕ → ℕ
xor_all acc [] = acc
xor_all acc (b ∷ bs) = xor_all (bit_xor acc b) bs

zero_xor : (a : ℕ) → bit_xor 0 a ≡ a
zero_xor a = simp bit_xor-bitwise refl

-- A fold may be cut in two parts that are joined at the end.
pub xor_all-split : (acc : ℕ) (bs : List ℕ) → xor_all acc bs ≡ bit_xor acc (xor_all 0 bs)
xor_all-split acc [] = sym (xor_zero acc)
xor_all-split acc (b ∷ bs) =
    xor_all-split (bit_xor acc b) bs
    ∙ xor_assoc acc b (xor_all 0 bs)
    ∙ ap (λ (t : ℕ). bit_xor acc t)
        (sym (ap (λ (t : ℕ). xor_all t bs) (zero_xor b) ∙ xor_all-split b bs))

pub xor_all-append :
    (acc : ℕ) (xs ys : List ℕ) → xor_all acc (xs ++ ys) ≡ xor_all (xor_all acc xs) ys
xor_all-append acc [] ys = refl
xor_all-append acc (x ∷ xs) ys = xor_all-append (bit_xor acc x) xs ys
