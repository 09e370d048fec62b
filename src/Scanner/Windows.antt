-- ===== src/Scanner/Windows.antt =====
-- `slice::windows` of the language, and the list that stands in another as a whole.
use mlink.Prelude.{
  ℕ, ◌≤◌, ◌<◌, ◌≡◌, refl, sym, ap, ◌∙◌, arith, leb, List, [], ◌∷◌, ◌++◌, Bool, true, false, ◌||◌,
  if◌then◌else◌, length, take, drop, any, take-append-drop, take-length_append, length-append,
  Bool-cases, inl, inr,
}
use mlink.Session.Manager.{bytes_eq}
use mlink.Session.Manager.Hints.{bytes_eq_iff}

unfoldable pub windows : ℕ → List ℕ → List (List ℕ)
windows n [] = []
windows n (x ∷ xs) = if leb n (length (x ∷ xs)) then take n (x ∷ xs) ∷ windows n xs else []

-- `h` stands in `m` as a whole.
abbrev pub Within : List ℕ → List ℕ → Type 0
Within h m = (before after : List ℕ) × (m ≡ before ++ (h ++ after))

or_true : (b : Bool) → (b || true) ≡ true
or_true true = refl
or_true false = refl

abbrev pub some_window : List ℕ → List ℕ → Bool
some_window h m = any (λ w. bytes_eq w h) (windows (length h) m)

step :
    (h : List ℕ) (x : ℕ) (xs : List ℕ)
    → length h ≤ length (x ∷ xs)
    → some_window h (x ∷ xs) ≡ (bytes_eq (take (length h) (x ∷ xs)) h || some_window h xs)
unfolding windows
step h x xs k = let e : leb (length h) (length (x ∷ xs)) ≡ true = ground (arith, k) in rw e refl

too_short :
    (h : List ℕ) (x : ℕ) (xs : List ℕ)
    → leb (length h) (length (x ∷ xs)) ≡ false
    → some_window h (x ∷ xs) ≡ false
unfolding windows
too_short h x xs e = rw e refl

at_front : (h m : List ℕ) → bytes_eq (take (length h) m) h ≡ true → Within h m
at_front h m e = (
  [],
  drop (length h) m,
  sym (take-append-drop (length h) m)
      ∙ ap (λ t. t ++ drop (length h) m) ((bytes_eq_iff (take (length h) m) h).0 e),
)

further : (h : List ℕ) (x : ℕ) (xs : List ℕ) → Within h xs → Within h (x ∷ xs)
further h x xs (before, after, e) = (x ∷ before, after, ap (λ t. x ∷ t) e)

pub window_found : (h m : List ℕ) → some_window h m ≡ true → Within h m
unfolding windows
window_found h [] e = cc
window_found h (x ∷ xs) e = elim (Bool-cases (leb (length h) (length (x ∷ xs)))) [
  | inr short ↦ absurd (ground (arith, e, too_short h x xs short))
  | inl long ↦
      let e' = sym (step h x xs (ground (arith, long))) ∙ e in
      elim (Bool-cases (bytes_eq (take (length h) (x ∷ xs)) h)) [
        | inl here ↦ at_front h (x ∷ xs) here
        | inr elsewhere ↦ further h x xs (window_found h xs (rw elsewhere at e'))
      ]
]

pub window_there :
    (h before after : List ℕ) → 0 < length h → some_window h (before ++ (h ++ after)) ≡ true
window_there [] [] after k = absurd (omega arith)
window_there (y ∷ ys) [] after k =
    step (y ∷ ys) y (ys ++ after) (omega (arith, length-append ys after))
    ∙ rw (take-length_append ys after, (bytes_eq_iff (y ∷ ys) (y ∷ ys)).1 refl) refl
window_there h (x ∷ before) after k =
    step h x (before ++ (h ++ after))
      (omega (arith, length-append before (h ++ after), length-append h after))
    ∙ rw (window_there h before after k) (or_true _)
