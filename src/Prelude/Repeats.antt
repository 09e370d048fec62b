-- ===== src/Prelude/Repeats.antt =====
-- Sets of strings without repetition.
use Prim.Native.String.{String}
use mathlib.Core.Path.{◌≡◌, refl}
use mathlib.Core.Bool.{false}
use mathlib.Core.List.{List, [], ◌∷◌, ◌++◌}
use native.Mathlib.Omega.{arith}
use text.Mathlib.TextEquality.{eq_iff}
use mlink.Prelude.Tables.{member, member-append}

abbrev pub Distinct : List String → Type 0
Distinct [] = Unit
Distinct (x ∷ xs) = (member x xs ≡ false) × Distinct xs

pub Distinct-snoc :
    (k : String) (xs : List String) → member k xs ≡ false → Distinct xs → Distinct (xs ++ (k ∷ []))
Distinct-snoc k [] h d = (refl, tt)
Distinct-snoc k (x ∷ xs) h d = (
  ground (arith, h, d.0, member-append x xs (k ∷ []), eq_iff x k, eq_iff k x),
  Distinct-snoc k xs (ground (arith, h)) d.1,
)

pub Distinct-before : (xs ys : List String) → Distinct (xs ++ ys) → Distinct xs
Distinct-before [] ys d = tt
Distinct-before (x ∷ xs) ys d =
    (ground (arith, member-append x xs ys, d.0), Distinct-before xs ys d.1)
