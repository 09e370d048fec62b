-- ===== src/Protocol/Seq/Window.antt =====
-- What the duplicate window promises, over numbers that never wrap: the list of accepted numbers
-- and the largest of them.
use mlink.Prelude.{
  ℕ, ◌-◌, ◌<◌, ◌≤◌, ◌≡◌, refl, arith, Bool, true, false, List, [], ◌∷◌, ltb, leb, ◌==◌,
  if◌then◌else◌, any, All, Bool-cases, inl, inr,
}
use mlink.Protocol.Seq.{Observation, accept, duplicate, stale}

abbrev pub contains : List ℕ → ℕ → Bool
contains ns n = any (λ m. m == n) ns

pub record Log : Type 0 where
  pub accepted : List ℕ
  pub top : ℕ

abbrev pub no_log : Log
no_log = record { accepted = []; top = 0 }

abbrev pub is_nil : List ℕ → Bool
is_nil [] = true
is_nil (x ∷ xs) = false

abbrev pub started : Log → Bool
started l = if is_nil l.accepted then false else true

abbrev pub admit : Log → ℕ → ℕ → Log
admit l n top = record { accepted = n ∷ l.accepted; top = top }

-- A number above the largest is new; one behind it by less than 128 is new if it is not in the
-- list; one further behind is stale.
unfoldable pub judge : Log → ℕ → Observation × Log
judge l n =
    if started l
    then (if ltb l.top n
        then (accept, admit l n n)
        else if leb 128 (l.top - n)
        then (stale, l)
        else if contains l.accepted n
        then (duplicate, l)
        else (accept, admit l n l.top))
    else (accept, admit l n n)

pub record IsLog (l : Log) : Type 0 where
  pub below : All (λ n. n ≤ l.top) l.accepted
  pub has_top : started l ≡ true → contains l.accepted l.top ≡ true

pub All-le_mono : (ns : List ℕ) (a b : ℕ) → a ≤ b → All (λ n. n ≤ a) ns → All (λ n. n ≤ b) ns
All-le_mono [] a b h w = tt
All-le_mono (n ∷ ns) a b h w = (omega arith, All-le_mono ns a b h w.1)

pub contains-above :
    (ns : List ℕ) (top n : ℕ) → All (λ m. m ≤ top) ns → top < n → contains ns n ≡ false
contains-above [] top n w h = refl
contains-above (m ∷ ns) top n w h = ground (arith, contains-above ns top n w.1)

pub contains-is_nil : (ns : List ℕ) (m : ℕ) → is_nil ns ≡ true → contains ns m ≡ false
contains-is_nil [] m h = refl
contains-is_nil (n ∷ ns) m h = cc

All-not_started : (ns : List ℕ) (top : ℕ) → is_nil ns ≡ true → All (λ m. m ≤ top) ns
All-not_started [] top h = tt
All-not_started (n ∷ ns) top h = cc

judge-below : (l : Log) (n : ℕ) → IsLog l → All (λ m. m ≤ (judge l n).1.top) (judge l n).1.accepted
unfolding judge
judge-below l n w = elim (Bool-cases (started l)) [
  | inl s ↦ elim (Bool-cases (ltb l.top n)) [
    | inl up ↦ rw (s, up) (omega arith, All-le_mono l.accepted l.top n (ground arith) w.below)
    | inr back ↦
        rw (s, back)
          (elim (Bool-cases (leb 128 (l.top - n))) [
            | inl far ↦ rw far w.below
            | inr near ↦ rw near (elim (Bool-cases (contains l.accepted n)) [
              | inl old ↦ rw old w.below
              | inr new ↦ rw new (ground arith, w.below)
            ])
          ])
  ]
  | inr f ↦ rw f (omega arith, All-not_started l.accepted n (ground arith))
]

judge-has_top :
    (l : Log) (n : ℕ)
    → IsLog l
    → started (judge l n).1 ≡ true
    → contains (judge l n).1.accepted (judge l n).1.top ≡ true
unfolding judge
judge-has_top l n w = ground (arith, w.has_top)

pub judge-IsLog : (l : Log) (n : ℕ) → IsLog l → IsLog (judge l n).1
judge-IsLog l n w = record { below = judge-below l n w; has_top = judge-has_top l n w }
