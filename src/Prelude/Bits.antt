-- ===== src/Prelude/Bits.antt =====
-- The bits of a number, and what `&`, `|` and shifts do to them.
use Prim.Native.Nat.{
  ℕ, zero, suc, ◌+◌, ◌-◌, ◌*◌, ◌/◌, ◌%◌, ◌^◌, ◌≤◌, ◌<◌, min, max, bit_and, bit_or,
}
use Prim.Native.Nat.{digits, bitwise, bit_and-bitwise, bit_or-bitwise}
use mathlib.Core.Path.{◌≡◌, refl, sym, ap, ◌∙◌}
use native.Mathlib.Omega.{arith}
use native.Mathlib.Nat.{
  pow-suc, pow-succ', one-le-pow, mod-lt, mod-eq_of_lt, div-add-mod, add-mul-mod_self_left,
  div-div-eq-div-mul,
}
use mlink.Prelude.Tests.{ltb, ◌==◌, if◌then◌else◌}

-- Bit `i` of `x`, 0 or 1.
pub bit : ℕ → ℕ → ℕ
bit x zero = x % 2
bit x (suc i) = bit (x / 2) i

-- Once the fuel reaches the left number, more of it changes nothing.
spare_fuel :
    (last : ℕ → ℕ) (op : ℕ → ℕ → ℕ) (x y k fuel : ℕ)
    → x ≤ k
    → k ≤ fuel
    → digits last op fuel x y ≡ digits last op k x y
spare_fuel last op zero y zero zero h e = refl
spare_fuel last op zero y zero (suc fuel) h e = refl
spare_fuel last op zero y (suc k) (suc fuel) h e = refl
spare_fuel last op (suc x) y (suc k) (suc fuel) h e =
    rw (spare_fuel last op (suc x / 2) (y / 2) k fuel (omega arith) (omega arith))
spare_fuel last op (suc x) y zero fuel h e = absurd (omega arith)
spare_fuel last op x y (suc k) zero h e = absurd (omega arith)

pub lowest_digit :
    (last : ℕ → ℕ) (op : ℕ → ℕ → ℕ) (x y : ℕ)
    → bitwise last op (suc x) y ≡ bitwise last op (suc x / 2) (y / 2) * 2 + op (suc x % 2) (y % 2)
lowest_digit last op x y =
    let h : suc x / 2 ≤ x = omega arith in
    rw (spare_fuel last op (suc x / 2) (y / 2) (suc x / 2) x (omega arith) h)

bit_or_digit : (x y : ℕ) → bit_or x y ≡ bit_or (x / 2) (y / 2) * 2 + max (x % 2) (y % 2)
bit_or_digit (suc x) y = simp bit_or-bitwise (lowest_digit (λ t. t) max x y)
bit_or_digit zero y = simp bit_or-bitwise (omega arith)

bit_and_digit : (x y : ℕ) → bit_and x y ≡ bit_and (x / 2) (y / 2) * 2 + min (x % 2) (y % 2)
bit_and_digit (suc x) y = simp bit_and-bitwise (lowest_digit (λ t. 0) min x y)
bit_and_digit zero y = simp bit_and-bitwise (omega arith)

pub div_two_digit : (x q r : ℕ) → x ≡ q * 2 + r → r < 2 → x / 2 ≡ q
div_two_digit x q r e h = omega arith

pub bit-le-one : (x i : ℕ) → bit x i ≤ 1
unfolding bit
bit-le-one x zero = omega arith
bit-le-one x (suc i) = bit-le-one (x / 2) i

pub bit-bit_or : (a b i : ℕ) → bit (bit_or a b) i ≡ max (bit a i) (bit b i)
unfolding bit
bit-bit_or a b zero = omega (arith, bit_or_digit a b)
bit-bit_or a b (suc i) =
    rw
      (div_two_digit (bit_or a b) (bit_or (a / 2) (b / 2)) (max (a % 2) (b % 2)) (bit_or_digit a b)
        (omega arith))
      (bit-bit_or (a / 2) (b / 2) i)

pub bit-zero : (i : ℕ) → bit 0 i ≡ 0
unfolding bit
bit-zero zero = refl
bit-zero (suc i) = bit-zero i

-- The mask `1 << k`.
pub bit-pow : (k i : ℕ) → bit (2 ^ k) i ≡ (if k == i then 1 else 0)
unfolding bit
bit-pow zero zero = refl
bit-pow zero (suc i) = ground (arith, bit-zero i)
bit-pow (suc k) zero = ground (arith, pow-suc 2 k)
bit-pow (suc k) (suc i) =
    ground (arith, div_two_digit (2 ^ suc k) (2 ^ k) 0, pow-suc 2 k, bit-pow k i)

mul-pow-suc : (x k : ℕ) → x * 2 ^ suc k ≡ x * 2 ^ k * 2
mul-pow-suc x k = omega (arith, ap (λ (t : ℕ). x * t) (pow-suc 2 k))

-- `x << k`, before the width cuts it.
pub bit-shift : (x k i : ℕ) → bit (x * 2 ^ k) i ≡ (if ltb i k then 0 else bit x (i - k))
unfolding bit
bit-shift x zero i = ground (arith)
bit-shift x (suc k) zero = ground (arith, mul-pow-suc x k)
bit-shift x (suc k) (suc i) =
    ground (arith, div_two_digit (x * 2 ^ suc k) (x * 2 ^ k) 0, mul-pow-suc x k, bit-shift x k i)

wide_split : (x p : ℕ) → x ≡ x / 2 % p * 2 + x % 2 + p * 2 * (x / 2 / p)
wide_split x p = omega (arith, div-add-mod (x / 2) p)

wide_digit : (x p : ℕ) → 0 < p → x % (p * 2) ≡ x / 2 % p * 2 + x % 2
wide_digit x p h =
    ap (λ (t : ℕ). t % (p * 2)) (wide_split x p)
    ∙ add-mul-mod_self_left (x / 2 % p * 2 + x % 2) (p * 2) (x / 2 / p)
    ∙ mod-eq_of_lt (omega (arith, mod-lt (x / 2) h))

mod_pow_digit : (w x : ℕ) → x % 2 ^ suc w ≡ x / 2 % 2 ^ w * 2 + x % 2
mod_pow_digit w x = rw (pow-suc 2 w) (wide_digit x (2 ^ w) (one-le-pow w 2 (omega arith)))

-- What a width of `w` bits keeps.
pub bit-mod-pow : (w x i : ℕ) → bit (x % 2 ^ w) i ≡ (if ltb i w then bit x i else 0)
unfolding bit
bit-mod-pow zero x i = ground (arith, bit-zero i)
bit-mod-pow (suc w) x zero = ground (arith, mod_pow_digit w x)
bit-mod-pow (suc w) x (suc i) = ground (
  arith,
  mod_pow_digit w x,
  div_two_digit (x % 2 ^ suc w) (x / 2 % 2 ^ w) (x % 2),
  bit-mod-pow w (x / 2) i,
)

bit_and-nothing_below : (k x : ℕ) → x ≤ k → bit_and x 0 ≡ 0
bit_and-nothing_below zero x h = ground (arith, bit_and_digit x 0)
bit_and-nothing_below (suc k) x h =
    omega (arith, bit_and_digit x 0, bit_and-nothing_below k (x / 2) (omega arith))

bit_and-zero : (x : ℕ) → bit_and x 0 ≡ 0
bit_and-zero x = bit_and-nothing_below x x (omega arith)

-- `x & (1 << k)` is that mask or 0.
pub bit_and-pow : (x k : ℕ) → bit_and x (2 ^ k) ≡ bit x k * 2 ^ k
unfolding bit
bit_and-pow x zero = omega (arith, bit_and_digit x 1, bit_and-zero (x / 2))
bit_and-pow x (suc k) = omega (
  arith,
  bit_and_digit x (2 ^ suc k),
  pow-suc 2 k,
  ap (λ (t : ℕ). bit_and (x / 2) t)
      (div_two_digit (2 ^ suc k) (2 ^ k) 0 (omega (arith, pow-suc 2 k)) (omega arith)),
  bit_and-pow (x / 2) k,
  mul-pow-suc (bit (x / 2) k) k,
)

div_pow_suc : (x k : ℕ) → x / 2 ^ suc k ≡ x / 2 / 2 ^ k
div_pow_suc x k = rw (pow-succ' 2 k) (sym (div-div-eq-div-mul x 2 (2 ^ k)))

-- `(x >> k) & 1`.
pub bit-div-pow : (x k : ℕ) → bit_and (x / 2 ^ k) 1 ≡ bit x k
unfolding bit
bit-div-pow x zero = omega (arith, bit_and_digit (x / 1) 1, bit_and-zero (x / 1 / 2))
bit-div-pow x (suc k) = rw (div_pow_suc x k) (bit-div-pow (x / 2) k)
