-- ===== src/Prelude/Tables.antt =====
-- Association lists over strings, for `HashMap<String, _>` and `HashSet<String>`.
use Prim.Native.String.{String}
use mathlib.Core.Path.{◌≡◌, refl}
use mathlib.Core.Bool.{Bool, true, false, not, ◌||◌}
use mathlib.Core.Option.{Option, none, some}
use mathlib.Core.List.{List, [], ◌∷◌, ◌++◌}
use native.Mathlib.Omega.{arith}
use text.Mathlib.Text.{◌==◌ as str_eq}
use text.Mathlib.TextEquality.{eq_iff}
use mlink.Prelude.Tests.{if◌then◌else◌}
use mlink.Prelude.Lists.{retain, any}

module _ {ℓ} {A : Type ℓ} where
  abbrev pub lookup : String → List (String × A) → Option A
  lookup k [] = none
  lookup k ((j, a) ∷ m) = if str_eq j k then some a else lookup k m

  -- A write to the value at a key that is there.
  abbrev pub replace : String → A → List (String × A) → List (String × A)
  replace k b [] = []
  replace k b ((j, a) ∷ m) = if str_eq j k then (j, b) ∷ m else (j, a) ∷ replace k b m

  -- `HashMap::insert`.
  abbrev pub insert : String → A → List (String × A) → List (String × A)
  insert k b [] = (k, b) ∷ []
  insert k b ((j, a) ∷ m) = if str_eq j k then (j, b) ∷ m else (j, a) ∷ insert k b m

  -- `HashMap::remove`.
  abbrev pub delete : String → List (String × A) → List (String × A)
  delete k m = retain (λ e. not (str_eq e.0 k)) m

  pub lookup-replace :
      (j k : String) (b : A) (m : List (String × A))
      → lookup j (replace k b m)
        ≡ (if str_eq k j then (elim (lookup j m) [ none ↦ none | some a ↦ some b ]) else lookup j m)
  lookup-replace j k b [] = ground arith
  lookup-replace j k b ((i, a) ∷ m) =
      ground (arith, lookup-replace j k b m, eq_iff i j, eq_iff i k, eq_iff k j)

  pub lookup-insert :
      (j k : String) (b : A) (m : List (String × A))
      → lookup j (insert k b m) ≡ (if str_eq k j then some b else lookup j m)
  lookup-insert j k b [] = ground arith
  lookup-insert j k b ((i, a) ∷ m) =
      ground (arith, lookup-insert j k b m, eq_iff i j, eq_iff i k, eq_iff k j)

  pub lookup-delete :
      (j k : String) (m : List (String × A))
      → lookup j (delete k m) ≡ (if str_eq k j then none else lookup j m)
  lookup-delete j k [] = ground arith
  lookup-delete j k ((i, a) ∷ m) =
      ground (arith, lookup-delete j k m, eq_iff i j, eq_iff i k, eq_iff k j)

-- Sets of strings.
abbrev pub member : String → List String → Bool
member k xs = any (λ x. str_eq x k) xs

abbrev pub add_member : String → List String → List String
add_member k xs = if member k xs then xs else xs ++ (k ∷ [])

abbrev pub drop_member : String → List String → List String
drop_member k xs = retain (λ x. not (str_eq x k)) xs

pub member-append :
    (j : String) (xs ys : List String) → member j (xs ++ ys) ≡ (member j xs || member j ys)
member-append j [] ys = refl
member-append j (x ∷ xs) ys = ground (arith, member-append j xs ys)

pub member_same : (j k : String) (xs : List String) → str_eq k j ≡ true → member j xs ≡ member k xs
member_same j k [] e = refl
member_same j k (x ∷ xs) e =
    ground (arith, member_same j k xs, e, eq_iff k j, eq_iff x j, eq_iff x k)

pub member-add_member :
    (j k : String) (xs : List String)
    → member j (add_member k xs) ≡ (if str_eq k j then true else member j xs)
member-add_member j k xs = ground (arith, member-append j xs (k ∷ []), member_same j k xs)

pub member-drop_member :
    (j k : String) (xs : List String)
    → member j (drop_member k xs) ≡ (if str_eq k j then false else member j xs)
member-drop_member j k [] = ground arith
member-drop_member j k (x ∷ xs) =
    ground (arith, member-drop_member j k xs, eq_iff x j, eq_iff x k, eq_iff k j)
