-- ===== src/Connection/Roles.antt =====
-- What the two ends of a connection decide.
use Prim.Native.Nat.{ℕ, zero, suc, Ordering, compare as compare_ℕ}
use Prim.Native.Nat.compare as compare_ℕ
use Prim.Native.String.{String, [], ◌∷◌, compare, then}
use Prim.Native.String.compare
use Prim.Native.Char.{code}
use mathlib.Core.Path.{◌≡◌, refl, sym, ap, ◌∙◌}
use mathlib.Core.Logic.{◌⊎◌, inl, inr}
use text.Mathlib.TextEquality.{path_by_compare}
use mlink.Connection.{central, peripheral, role_by, negotiate_role}

flip : Ordering → Ordering
flip Ordering.lt = Ordering.gt
flip Ordering.eq = Ordering.eq
flip Ordering.gt = Ordering.lt

flip-compare_ℕ : (m n : ℕ) → compare_ℕ n m ≡ flip (compare_ℕ m n)
unfolding flip
flip-compare_ℕ zero zero = refl
flip-compare_ℕ zero (suc n) = compare_ℕ.suc-zero n ∙ ap flip (sym (compare_ℕ.zero-suc n))
flip-compare_ℕ (suc m) zero = compare_ℕ.zero-suc m ∙ ap flip (sym (compare_ℕ.suc-zero m))
flip-compare_ℕ (suc m) (suc n) =
    compare_ℕ.suc-suc n m ∙ flip-compare_ℕ m n ∙ ap flip (sym (compare_ℕ.suc-suc m n))

flip-then : (o r : Ordering) → flip (then o r) ≡ then (flip o) (flip r)
unfolding flip
flip-then Ordering.lt r = refl
flip-then Ordering.eq r = refl
flip-then Ordering.gt r = refl

flip-compare : (s t : String) → compare t s ≡ flip (compare s t)
unfolding flip
flip-compare [] [] = refl
flip-compare [] (d ∷ t) = compare.cons-nil d t ∙ ap flip (sym (compare.nil-cons d t))
flip-compare (c ∷ s) [] = compare.nil-cons c s ∙ ap flip (sym (compare.cons-nil c s))
flip-compare (c ∷ s) (d ∷ t) =
    compare.cons-cons d c t s
    ∙ ap (λ o. then o (compare t s)) (flip-compare_ℕ (code c) (code d))
    ∙ ap (λ o. then (flip (compare_ℕ (code c) (code d))) o) (flip-compare s t)
    ∙ sym (flip-then (compare_ℕ (code c) (code d)) (compare s t))
    ∙ ap flip (sym (compare.cons-cons c d s t))

decided :
    (a b : String) (o : Ordering)
    → compare a b ≡ o
    → compare b a ≡ flip o
    → ((a ≡ b) × (negotiate_role a b ≡ peripheral) × (negotiate_role b a ≡ peripheral))
      ⊎ (((negotiate_role a b ≡ central) × (negotiate_role b a ≡ peripheral))
          ⊎ ((negotiate_role a b ≡ peripheral) × (negotiate_role b a ≡ central)))
unfolding negotiate_role flip
decided a b Ordering.lt e f = inr (inl (ap role_by e, ap role_by f))
decided a b Ordering.eq e f = inl (path_by_compare a b e, ap role_by e, ap role_by f)
decided a b Ordering.gt e f = inr (inr (ap role_by e, ap role_by f))

-- Of two ends that each negotiate over their own and the other's identifier, exactly one gets the role
-- of the central and the other that of the peripheral, unless the identifiers are equal: then both
-- get the role of the peripheral.
pub negotiate_role-negotiate_role :
    (a b : String)
    → ((a ≡ b) × (negotiate_role a b ≡ peripheral) × (negotiate_role b a ≡ peripheral))
      ⊎ (((negotiate_role a b ≡ central) × (negotiate_role b a ≡ peripheral))
          ⊎ ((negotiate_role a b ≡ peripheral) × (negotiate_role b a ≡ central)))
negotiate_role-negotiate_role a b = decided a b (compare a b) refl (flip-compare a b)
