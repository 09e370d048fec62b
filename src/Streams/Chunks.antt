-- ===== src/Streams/Chunks.antt =====
-- `slice::chunks` of the language: the pieces of a list of bytes, and what they make together.
use mlink.Prelude.{
  ℕ, zero, suc, ◌+◌, ◌-◌, ◌/◌, ◌≤◌, ◌<◌, ◌≡◌, refl, sym, ap, ◌∙◌, arith, List, [], ◌∷◌, ◌++◌,
  length, take, drop, length-take, length-drop, take-append-drop, All, ltb, Bool-cases, inl, inr,
}
use native.Mathlib.Nat.{div-eq_of_lt, add-div_right, div-le_self}

-- Each piece takes one unit of fuel, and there are at most as many pieces as bytes.
abbrev chunks_upto : ℕ → ℕ → List ℕ → List (List ℕ)
chunks_upto zero n xs = []
chunks_upto (suc fuel) n [] = []
chunks_upto (suc fuel) n (x ∷ xs) = take n (x ∷ xs) ∷ chunks_upto fuel n (drop n (x ∷ xs))

unfoldable pub chunks : ℕ → List ℕ → List (List ℕ)
chunks n xs = chunks_upto (length xs) n xs

abbrev pub flat : List (List ℕ) → List ℕ
flat [] = []
flat (c ∷ cs) = c ++ flat cs

flat-chunks_upto :
    (fuel n : ℕ) (xs : List ℕ) → 0 < n → length xs ≤ fuel → flat (chunks_upto fuel n xs) ≡ xs
flat-chunks_upto zero n [] h k = refl
flat-chunks_upto zero n (x ∷ xs) h k = absurd (omega arith)
flat-chunks_upto (suc fuel) n [] h k = refl
flat-chunks_upto (suc fuel) n (x ∷ xs) h k =
    ap (λ t. take n (x ∷ xs) ++ t)
      (flat-chunks_upto fuel n (drop n (x ∷ xs)) h (omega (arith, length-drop n (x ∷ xs))))
    ∙ take-append-drop n (x ∷ xs)

-- The number of pieces, as the source computes it beforehand.
abbrev pub ceil_div : ℕ → ℕ → ℕ
ceil_div m n = (m + n - 1) / n

ceil_rest : (m n : ℕ) → 0 < n → ceil_div (suc m - n) n ≡ m / n
ceil_rest m n h = elim (Bool-cases (ltb m n)) [
  | inl less ↦
      div-eq_of_lt (ground (arith, less))
      ∙ sym (div-eq_of_lt {n = m} {m = n} (ground (arith, less)))
  | inr more ↦ ap (λ (t : ℕ). t / n) (ground (arith, more))
]

ceil_step : (m n : ℕ) → 0 < n → ceil_div (suc m) n ≡ suc (ceil_div (suc m - n) n)
ceil_step m n h =
    let e : suc m + n - 1 ≡ m + n = omega arith in
    ap (λ (t : ℕ). t / n) e ∙ omega (arith, add-div_right m h, ceil_rest m n h)

pub ceil_none : (n : ℕ) → 0 < n → ceil_div 0 n ≡ 0
ceil_none n h = div-eq_of_lt (omega arith)

pub ceil_div-le : (m n : ℕ) → 0 < n → ceil_div m n ≤ m
ceil_div-le zero n h = omega (arith, ceil_none n h)
ceil_div-le (suc m) n h = omega (arith, ceil_step m n h, ceil_rest m n h, div-le_self m n)

length-chunks_upto :
    (fuel n : ℕ) (xs : List ℕ)
    → 0 < n
    → length xs ≤ fuel
    → length (chunks_upto fuel n xs) ≡ ceil_div (length xs) n
length-chunks_upto zero n [] h k = sym (div-eq_of_lt (omega arith))
length-chunks_upto zero n (x ∷ xs) h k = absurd (omega arith)
length-chunks_upto (suc fuel) n [] h k = sym (div-eq_of_lt (omega arith))
length-chunks_upto (suc fuel) n (x ∷ xs) h k =
    ap suc (
      length-chunks_upto fuel n (drop n (x ∷ xs)) h (omega (arith, length-drop n (x ∷ xs)))
      ∙ ap (λ (t : ℕ). ceil_div t n) (length-drop n (x ∷ xs)))
    ∙ sym (ceil_step (length xs) n h)

sizes_upto :
    (fuel n : ℕ) (xs : List ℕ)
    → 0 < n
    → All (λ c. (0 < length c) × (length c ≤ n)) (chunks_upto fuel n xs)
sizes_upto zero n xs h = tt
sizes_upto (suc fuel) n [] h = tt
sizes_upto (suc fuel) n (x ∷ xs) h = (
  (omega (arith, length-take n (x ∷ xs)), omega (arith, length-take n (x ∷ xs))),
  sizes_upto fuel n (drop n (x ∷ xs)) h,
)

-- With a positive size the pieces are all of the list, in order; there are as many as the division
-- that rounds up says; and each has at least one byte and at most the size.
pub chunks-partition :
    (n : ℕ) (xs : List ℕ)
    → 0 < n
    → (flat (chunks n xs) ≡ xs)
      × (length (chunks n xs) ≡ ceil_div (length xs) n)
      × All (λ c. (0 < length c) × (length c ≤ n)) (chunks n xs)
unfolding chunks
chunks-partition n xs h = (
  flat-chunks_upto (length xs) n xs h (omega arith),
  length-chunks_upto (length xs) n xs h (omega arith),
  sizes_upto (length xs) n xs h,
)
