-- ===== src/Prelude/Bytes.antt =====
-- Big-endian byte strings (`to_be_bytes`, `from_be_bytes` of the language).
use Prim.Native.Nat.{ℕ, zero, suc, ◌+◌, ◌*◌, ◌/◌, ◌%◌, ◌^◌, ◌≤◌, ◌<◌}
use mathlib.Core.Path.{◌≡◌, refl, ap}
use mathlib.Core.List.{List, [], ◌∷◌, ◌++◌}
use native.Mathlib.Omega.{arith}
use native.Mathlib.Nat.{pow-suc}
use mlink.Prelude.Lists.{length, length-append, All, All-append}

abbrev pub IsByte : ℕ → Type 0
IsByte b = b < 256

-- The `w` lowest bytes of `n`, the highest of them first.
abbrev pub to_be_bytes : ℕ → ℕ → List ℕ
to_be_bytes zero n = []
to_be_bytes (suc w) n = to_be_bytes w (n / 256) ++ ((n % 256) ∷ [])

abbrev pub from_be_acc : ℕ → List ℕ → ℕ
from_be_acc acc [] = acc
from_be_acc acc (b ∷ bs) = from_be_acc (acc * 256 + b) bs

abbrev pub from_be_bytes : List ℕ → ℕ
from_be_bytes bs = from_be_acc 0 bs

from_be_acc-snoc :
    (acc b : ℕ) (bs : List ℕ) → from_be_acc acc (bs ++ (b ∷ [])) ≡ from_be_acc acc bs * 256 + b
from_be_acc-snoc acc b [] = refl
from_be_acc-snoc acc b (x ∷ bs) = from_be_acc-snoc (acc * 256 + x) b bs

pub from_be_bytes-to_be_bytes : (w n : ℕ) → n < 256 ^ w → from_be_bytes (to_be_bytes w n) ≡ n
from_be_bytes-to_be_bytes zero n h = omega arith
from_be_bytes-to_be_bytes (suc w) n h = omega (
  arith,
  from_be_acc-snoc 0 (n % 256) (to_be_bytes w (n / 256)),
  from_be_bytes-to_be_bytes w (n / 256) (omega (arith, pow-suc 256 w)),
)

pub length-to_be_bytes : (w n : ℕ) → length (to_be_bytes w n) ≡ w
length-to_be_bytes zero n = refl
length-to_be_bytes (suc w) n = omega (
  arith,
  length-append (to_be_bytes w (n / 256)) ((n % 256) ∷ []),
  length-to_be_bytes w (n / 256),
)

pub to_be_bytes-IsByte : (w n : ℕ) → All IsByte (to_be_bytes w n)
to_be_bytes-IsByte zero n = tt
to_be_bytes-IsByte (suc w) n =
    All-append IsByte (to_be_bytes w (n / 256)) ((n % 256) ∷ []) (to_be_bytes-IsByte w (n / 256))
      (omega arith)

byte_room : (b p : ℕ) → b < 256 → b * p + p ≤ 256 * p
byte_room b p h = grind arith

from_be_acc-lt :
    (acc : ℕ) (bs : List ℕ) → All IsByte bs → from_be_acc acc bs < (acc + 1) * 256 ^ length bs
from_be_acc-lt acc [] h = omega arith
from_be_acc-lt acc (b ∷ bs) h = omega (
  arith,
  ap (λ (t : ℕ). (acc + 1) * t) (pow-suc 256 (length bs)),
  from_be_acc-lt (acc * 256 + b) bs h.1,
  byte_room b (256 ^ length bs) h.0,
)

pub from_be_bytes-lt : (bs : List ℕ) → All IsByte bs → from_be_bytes bs < 256 ^ length bs
from_be_bytes-lt bs h = omega (arith, from_be_acc-lt 0 bs h)
