-- ===== src/Protocol/Seq/Stream.antt =====
-- A window over a whole stream of arrivals, with repeats and out of order.
use mlink.Prelude.{
  ℕ, ◌+◌, ◌-◌, ◌%◌, ◌^◌, ◌<◌, ◌≤◌, ◌≡◌, refl, arith, true, false, ◌||◌, List, [], ◌∷◌, ltb, ltb→lt,
  leb, ◌==◌, All, max, Bool-cases, inl, inr,
}
use mlink.Protocol.Seq.{
  DedupWindow, Observation, accept, duplicate, stale, observe, new_window, u32_mod,
}
use mlink.Protocol.Seq.Window.{
  Log, IsLog, contains, contains-above, judge, judge-IsLog, contains-is_nil, started, no_log,
}
use mlink.Protocol.Seq.Refines.{Refines, observe-Refines}

abbrev pub keep : Observation → ℕ → List ℕ → List ℕ
keep accept n got = n ∷ got
keep duplicate n got = got
keep stale n got = got

-- The numbers that a reader accepts of a stream of arrivals, the last one first. The window sees
-- their lowest 32 bits.
unfoldable pub deliver : DedupWindow → List ℕ → List ℕ → List ℕ
deliver w got [] = got
deliver w got (n ∷ ns) =
    deliver (observe w (n % u32_mod)).1 (keep (observe w (n % u32_mod)).0 n got) ns

judge_all : Log → List ℕ → Log
judge_all l [] = l
judge_all l (n ∷ ns) = judge_all (judge l n).1 ns

-- All arrivals lie in one half of the number space.
abbrev pub InHalf : ℕ → ℕ → Type 0
InHalf b n = (b ≤ n) × (n < b + 2 ^ 31)

abbrev TopInHalf : ℕ → Log → Type 0
TopInHalf b l = started l ≡ true → InHalf b l.top

accepted-judge : (l : Log) (n : ℕ) → (judge l n).1.accepted ≡ keep (judge l n).0 n l.accepted
unfolding judge
accepted-judge l n = ground arith

judge-TopInHalf : (b : ℕ) (l : Log) (n : ℕ) → InHalf b n → TopInHalf b l → TopInHalf b (judge l n).1
unfolding judge
judge-TopInHalf b l n h k = ground arith

deliver-judge_all :
    (b : ℕ) (ns : List ℕ) (w : DedupWindow) (l : Log)
    → All (InHalf b) ns
    → TopInHalf b l
    → Refines w l
    → deliver w l.accepted ns ≡ (judge_all l ns).accepted
unfolding deliver judge_all
deliver-judge_all b [] w l h t r = refl
deliver-judge_all b (n ∷ ns) w l (hn, hns) t r =
    let (r', same) = observe-Refines w l n r (ground arith) in
    rw (same, ← accepted-judge)
      (deliver-judge_all b ns (observe w (n % u32_mod)).1 (judge l n).1 hns
        (judge-TopInHalf b l n hn t) r')

pub Refines-new : Refines new_window no_log
unfolding new_window
Refines-new = record {
  is_log = record { below = tt; has_top = λ e. cc };
  seen_eq = refl;
  last_eq = λ e. cc;
  bits_eq = λ e. cc;
}

abbrev pub NoRepeat : List ℕ → Type 0
NoRepeat [] = Unit
NoRepeat (n ∷ ns) = (contains ns n ≡ false) × NoRepeat ns

NoRepeat-judge : (l : Log) (n : ℕ) → IsLog l → NoRepeat l.accepted → NoRepeat (judge l n).1.accepted
unfolding judge
NoRepeat-judge l n w h = elim (Bool-cases (started l)) [
  | inr f ↦ rw f (contains-is_nil l.accepted n (ground arith), h)
  | inl s ↦ elim (Bool-cases (ltb l.top n)) [
    | inl up ↦ rw (s, up) (contains-above l.accepted l.top n w.below (ltb→lt _ _ up), h)
    | inr back ↦
        rw (s, back)
          (elim (Bool-cases (leb 128 (l.top - n))) [
            | inl far ↦ rw far h
            | inr near ↦ rw near (elim (Bool-cases (contains l.accepted n)) [
              | inl old ↦ rw old h
              | inr new ↦ rw new (new, h)
            ])
          ])
  ]
]

NoRepeat-judge_all :
    (ns : List ℕ) (l : Log) → IsLog l → NoRepeat l.accepted → NoRepeat (judge_all l ns).accepted
unfolding judge_all
NoRepeat-judge_all [] l w h = h
NoRepeat-judge_all (n ∷ ns) l w h =
    NoRepeat-judge_all ns (judge l n).1 (judge-IsLog l n w) (NoRepeat-judge l n w h)

-- Each arrival is less than 128 behind the largest number before it.
abbrev pub NotLate : ℕ → List ℕ → Type 0
NotLate top [] = Unit
NotLate top (n ∷ ns) = (top < n + 128) × NotLate (max top n) ns

-- Every number that arrived is accepted, and what was accepted stays.
contains-judge :
    (l : Log) (n m : ℕ)
    → (started l ≡ true → l.top < n + 128)
    → contains (judge l n).1.accepted m ≡ (n == m || contains l.accepted m)
unfolding judge
contains-judge l n m h = ground (arith, h)

top-judge : (l : Log) (n : ℕ) → started l ≡ true → (judge l n).1.top ≡ max l.top n
unfolding judge
top-judge l n s = ground arith

started-judge : (l : Log) (n : ℕ) → started (judge l n).1 ≡ true
unfolding judge
started-judge l n = ground arith

top_first : (n : ℕ) → (judge no_log n).1.top ≡ n
unfolding judge
top_first n = refl

contains-judge_all :
    (ns : List ℕ) (l : Log) (m : ℕ)
    → started l ≡ true
    → NotLate l.top ns
    → contains (judge_all l ns).accepted m ≡ (contains ns m || contains l.accepted m)
unfolding judge_all
contains-judge_all [] l m s h = refl
contains-judge_all (n ∷ ns) l m s (h, hs) = ground (
  arith,
  contains-judge_all ns (judge l n).1 m (started-judge l n) (rw (top-judge l n s) hs),
  contains-judge l n m (λ _. h),
)

-- From a fresh window, whatever arrives within one half of the number space, no number is
-- accepted twice.
pub deliver-NoRepeat :
    (b : ℕ) (ns : List ℕ) → All (InHalf b) ns → NoRepeat (deliver new_window [] ns)
deliver-NoRepeat b ns h =
    rw (deliver-judge_all b ns new_window no_log h (λ e. cc) Refines-new)
      (NoRepeat-judge_all ns no_log (Refines-new.is_log) tt)

-- From a fresh window, if each arrival is less than 128 behind the largest before it, exactly the
-- numbers that arrived are accepted, and each of them once.
pub deliver_exactly_once :
    (b first : ℕ) (ns : List ℕ)
    → All (InHalf b) (first ∷ ns)
    → NotLate first ns
    → NoRepeat (deliver new_window [] (first ∷ ns))
      × ((m : ℕ) → contains (deliver new_window [] (first ∷ ns)) m ≡ contains (first ∷ ns) m)
deliver_exactly_once b first ns h late = (
  deliver-NoRepeat b (first ∷ ns) h,
  λ m. rw (deliver-judge_all b (first ∷ ns) new_window no_log h (λ e. cc) Refines-new) (
      unfold judge_all in
      ground (
        arith,
        contains-judge_all ns (judge no_log first).1 m (started-judge no_log first)
            (rw (top_first first) late),
        contains-judge no_log first m (λ e. cc),
      )),
)
