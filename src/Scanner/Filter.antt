-- ===== src/Scanner/Filter.antt =====
-- Which peers the rooms let pass.
use mlink.Prelude.{
  ℕ, ◌≤◌, ◌≡◌, ◌⊎◌, ◌↔◌, inl, inr, refl, sym, ap, ◌∙◌, arith, ltb, List, [], ◌∷◌, ◌++◌, Bool, true,
  false, length, any, All, length-append, Bool-cases,
}
use mlink.Session.Manager.{bytes_eq}
use mlink.Scanner.{metadata_matches_any_room}
use mlink.Scanner.Windows.{windows, Within, some_window, window_found, window_there}

abbrev pub IsHash : List ℕ → Type 0
IsHash h = length h ≡ 8

-- Some hash stands in the metadata as a whole.
abbrev pub AnyWithin : List (List ℕ) → List ℕ → Type 0
AnyWithin [] m = ⊥
AnyWithin (h ∷ hs) m = Within h m ⊎ AnyWithin hs m

abbrev any_window : List ℕ → List (List ℕ) → Bool
any_window m hs = any (λ h. any (λ w. bytes_eq w h) (windows 8 m)) hs

sized : (h m : List ℕ) → IsHash h → any (λ w. bytes_eq w h) (windows 8 m) ≡ some_window h m
sized h m e = ap (λ (n : ℕ). any (λ w. bytes_eq w h) (windows n m)) (sym e)

any_window-AnyWithin :
    (m : List ℕ) (hs : List (List ℕ)) → All IsHash hs → any_window m hs ≡ true → AnyWithin hs m
any_window-AnyWithin m [] k e = absurd (ground (arith, e))
any_window-AnyWithin m (h ∷ hs) k e = elim (Bool-cases (any (λ w. bytes_eq w h) (windows 8 m))) [
  | inl here ↦ inl (window_found h m (sym (sized h m k.0) ∙ here))
  | inr elsewhere ↦ inr (any_window-AnyWithin m hs k.1 (rw elsewhere at e))
]

there : (h m : List ℕ) → IsHash h → Within h m → any (λ w. bytes_eq w h) (windows 8 m) ≡ true
there h m k (before, after, e) =
    sized h m k ∙ ap (some_window h) e ∙ window_there h before after (omega (arith, k))

AnyWithin-any_window :
    (m : List ℕ) (hs : List (List ℕ)) → All IsHash hs → AnyWithin hs m → any_window m hs ≡ true
AnyWithin-any_window m [] k w = elim w [ ]
AnyWithin-any_window m (h ∷ hs) k (inl w) = rw (there h m k.0 w) refl
AnyWithin-any_window m (h ∷ hs) k (inr w) = ground (arith, AnyWithin-any_window m hs k.1 w)

AnyWithin-le : (m : List ℕ) (hs : List (List ℕ)) → All IsHash hs → AnyWithin hs m → 8 ≤ length m
AnyWithin-le m [] k w = elim w [ ]
AnyWithin-le m (h ∷ hs) k (inl (before, after, e)) =
    omega (arith, ap length e, length-append before (h ++ after), length-append h after, k.0)
AnyWithin-le m (h ∷ hs) k (inr w) = AnyWithin-le m hs k.1 w

long_enough :
    (x : ℕ) (xs : List ℕ) (h : List ℕ) (hs : List (List ℕ))
    → ltb (length (x ∷ xs)) 8 ≡ false
    → metadata_matches_any_room (x ∷ xs) (h ∷ hs) ≡ any_window (x ∷ xs) (h ∷ hs)
unfolding metadata_matches_any_room
long_enough x xs h hs e = rw e refl

not_long_enough :
    (x : ℕ) (xs : List ℕ) (h : List ℕ) (hs : List (List ℕ))
    → ltb (length (x ∷ xs)) 8 ≡ true
    → metadata_matches_any_room (x ∷ xs) (h ∷ hs) ≡ false
unfolding metadata_matches_any_room
not_long_enough x xs h hs e = rw e refl

abbrev pub LetsPass : List (List ℕ) → List ℕ → Type 0
LetsPass hashes metadata = (hashes ≡ []) ⊎ ((metadata ≡ []) ⊎ AnyWithin hashes metadata)

found :
    (x : ℕ) (xs : List ℕ) (h : List ℕ) (hs : List (List ℕ))
    → All IsHash (h ∷ hs)
    → metadata_matches_any_room (x ∷ xs) (h ∷ hs) ≡ true
    → AnyWithin (h ∷ hs) (x ∷ xs)
found x xs h hs k e = elim (Bool-cases (ltb (length (x ∷ xs)) 8)) [
  | inl short ↦ absurd (ground (arith, e, not_long_enough x xs h hs short))
  | inr long ↦ any_window-AnyWithin (x ∷ xs) (h ∷ hs) k (sym (long_enough x xs h hs long) ∙ e)
]

matched :
    (x : ℕ) (xs : List ℕ) (h : List ℕ) (hs : List (List ℕ))
    → All IsHash (h ∷ hs)
    → LetsPass (h ∷ hs) (x ∷ xs)
    → metadata_matches_any_room (x ∷ xs) (h ∷ hs) ≡ true
matched x xs h hs k (inl e) = absurd (ground (arith, e))
matched x xs h hs k (inr (inl e)) = absurd (ground (arith, e))
matched x xs h hs k (inr (inr w)) =
    let long : 8 ≤ length (x ∷ xs) = AnyWithin-le (x ∷ xs) (h ∷ hs) k w in
    long_enough x xs h hs (ground (arith, long)) ∙ AnyWithin-any_window (x ∷ xs) (h ∷ hs) k w

-- The test by windows says the same as its description, for hashes of eight bytes: a peer passes if
-- there is no hash, if it has no metadata, or if some hash stands in its metadata as a whole, at any
-- place.
pub metadata_matches_any_room_iff :
    (metadata : List ℕ) (hashes : List (List ℕ))
    → All IsHash hashes
    → (metadata_matches_any_room metadata hashes ≡ true) ↔ LetsPass hashes metadata
unfolding metadata_matches_any_room
metadata_matches_any_room_iff m [] k = (λ e. inl refl, λ w. refl)
metadata_matches_any_room_iff [] (h ∷ hs) k = (λ e. inr (inl refl), λ w. refl)
metadata_matches_any_room_iff (x ∷ xs) (h ∷ hs) k =
    (λ e. inr (inr (found x xs h hs k e)), λ w. matched x xs h hs k w)
