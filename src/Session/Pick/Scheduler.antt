-- ===== src/Session/Pick/Scheduler.antt =====
-- Which link the scheduler picks, and when it would go back to a better one.
use mlink.Prelude.{
  ℕ, ◌+◌, ◌≤◌, ◌≡◌, ◌⊎◌, ◌↔◌, refl, arith, String, List, [], ◌∷◌, Bool, true, false, none, some,
  if◌then◌else◌, min, retain, All, inl, inr, Bool-cases, str_eq, eq_iff, ◌∙◌, ap,
}
use mlink.Prelude.Int.{ℤ, ◌≤ℤ◌, leb_ℤ}
use mlink.Link.{Link, score}
use mlink.Session.State.{Session, Env, switchback_hysteresis}
use mlink.Session.Pick.{
  best_excluding, max_by_score, better, eligible, should_switchback, bump_streak, remove_streak,
  streak,
}

abbrev pub Has : Link → List Link → Type 0
Has m [] = ⊥
Has m (l ∷ ls) = (l ≡ m) ⊎ Has m ls

-- `m` stands in the list, and no link of the list scores more.
abbrev IsBest : Link → List Link → Type 0
IsBest m ls = Has m ls × All (λ l. score l ≤ℤ score m) ls

≤ℤ_trans : (a b c : ℤ) → a ≤ℤ b → b ≤ℤ c → a ≤ℤ c
≤ℤ_trans a b c h k = omega arith

All-score_mono :
    (ls : List Link) (m n : Link)
    → score m ≤ℤ score n
    → All (λ l. score l ≤ℤ score m) ls
    → All (λ l. score l ≤ℤ score n) ls
All-score_mono [] m n h w = tt
All-score_mono (l ∷ ls) m n h w =
    (≤ℤ_trans (score l) (score m) (score n) w.0 h, All-score_mono ls m n h w.1)

leb_ℤ→≤ℤ : (a b : ℤ) → leb_ℤ a b ≡ true → a ≤ℤ b
leb_ℤ→≤ℤ a b h = ground arith

not_leb_ℤ→≤ℤ : (a b : ℤ) → leb_ℤ a b ≡ false → b ≤ℤ a
not_leb_ℤ→≤ℤ a b h = ground arith

≤ℤ_refl : (a : ℤ) → a ≤ℤ a
≤ℤ_refl a = omega arith

better-IsBest :
    (l m : Link) (ls : List Link)
    → IsBest m ls
    → (b : Link) × (better l (some m) ≡ some b) × IsBest b (l ∷ ls)
better-IsBest l m ls (has, all) = elim (Bool-cases (leb_ℤ (score l) (score m))) [
  | inl le ↦ (m, rw le, (inr has, (leb_ℤ→≤ℤ (score l) (score m) le, all)))
  | inr gt ↦
      let h : score m ≤ℤ score l = not_leb_ℤ→≤ℤ (score l) (score m) gt in
      (l, rw gt, (inl refl, (≤ℤ_refl (score l), All-score_mono ls m l h all)))
]

-- Of a list with a link in it one is best, and that is the one that is picked.
max_by_score_cons :
    (l : Link) (ls : List Link) → (b : Link) × (max_by_score (l ∷ ls) ≡ some b) × IsBest b (l ∷ ls)
unfolding max_by_score
max_by_score_cons l [] = (l, refl, (inl refl, (≤ℤ_refl (score l), tt)))
max_by_score_cons l (k ∷ ls) =
    let (m, e, w) = max_by_score_cons k ls in
    let (b, e', w') = better-IsBest l m (k ∷ ls) w in (b, ap (better l) e ∙ e', w')

Has-retain :
    (p : Link → Bool) (m : Link) (ls : List Link) → Has m (retain p ls) → Has m ls × (p m ≡ true)
Has-retain p m [] h = absurd h
Has-retain p m (l ∷ ls) h = elim (Bool-cases (p l)) [
  | inl e ↦
      let h' : (l ≡ m) ⊎ Has m (retain p ls) = rw e at h in
      elim h' [
        | inl q ↦ (inl q, rw (← q) e)
        | inr r ↦ let (k, t) = Has-retain p m ls r in (inr k, t)
      ]
  | inr e ↦
      let h' : Has m (retain p ls) = rw e at h in let (k, t) = Has-retain p m ls h' in (inr k, t)
]

All-retain_back :
    (p : Link → Bool) (m : Link) (ls : List Link)
    → All (λ l. score l ≤ℤ score m) (retain p ls)
    → All (λ l. p l ≡ true → score l ≤ℤ score m) ls
All-retain_back p m [] h = tt
All-retain_back p m (l ∷ ls) h = elim (Bool-cases (p l)) [
  | inl e ↦
      let h' : (score l ≤ℤ score m) × All (λ l. score l ≤ℤ score m) (retain p ls) = rw e at h in
      (λ _. h'.0, All-retain_back p m ls h'.1)
  | inr e ↦
      let h' : All (λ l. score l ≤ℤ score m) (retain p ls) = rw e at h in
      (λ q. absurd (cc), All-retain_back p m ls h')
]

retain_cases :
    (p : Link → Bool) (ls : List Link)
    → ((retain p ls ≡ []) × All (λ l. p l ≡ false) ls)
      ⊎ ((l : Link) × (ks : List Link) × (retain p ls ≡ l ∷ ks))
retain_cases p [] = inl (refl, tt)
retain_cases p (l ∷ ls) = elim (Bool-cases (p l)) [
  | inl e ↦ inr (l, retain p ls, rw e)
  | inr e ↦ elim (retain_cases p ls) [
    | inl (q, none_of) ↦ inl (rw e q, (e, none_of))
    | inr (k, ks, q) ↦ inr (k, ks, rw e q)
  ]
]

-- The link that is picked is one of the session, healthy and not the excluded one, and no such
-- link scores more; none is picked only if there is none.
pub best_excluding_lem :
    (env : Env) (s : Session) (ex : String)
    → ((m : Link) × (best_excluding env s ex ≡ some (m.id))
        × Has m s.links
        × (eligible env s ex m ≡ true)
        × All (λ l. eligible env s ex l ≡ true → score l ≤ℤ score m) s.links)
      ⊎ ((best_excluding env s ex ≡ none) × All (λ l. eligible env s ex l ≡ false) s.links)
best_excluding_lem env s ex = elim (retain_cases (eligible env s ex) s.links) [
  | inl (e, none_of) ↦ inr ((unfold best_excluding max_by_score in rw e), none_of)
  | inr (l, ks, e) ↦
      let (b, q, (has, all)) = max_by_score_cons l ks in
      let (has', ok_b) = Has-retain (eligible env s ex) b s.links (rw e has) in
      inl (
        b,
        (unfold best_excluding in rw (e, q)),
        has',
        ok_b,
        All-retain_back (eligible env s ex) b s.links (rw e all),
      )
]

streak-bump :
    (k j : String) (m : List (String × ℕ))
    → streak k (bump_streak j m) ≡ (if str_eq j k then min (streak k m + 1) 255 else streak k m)
streak-bump k j [] = ground (arith, eq_iff j k)
streak-bump k j ((i, n) ∷ m) = ground (arith, streak-bump k j m, eq_iff i j, eq_iff i k, eq_iff j k)

streak-remove :
    (k j : String) (m : List (String × ℕ))
    → streak k (remove_streak j m) ≡ (if str_eq j k then 0 else streak k m)
streak-remove k j [] = ground arith
streak-remove k j ((i, n) ∷ m) =
    ground (arith, streak-remove k j m, eq_iff i j, eq_iff i k, eq_iff j k)

-- Questions `(current, best)` put to the session in turn.
abbrev pub ask_all : Session → List (String × String) → Session
ask_all s [] = s
ask_all s ((current, best) ∷ asks) = ask_all (should_switchback s current best).1 asks

-- How often `k` was the better candidate since it was last found to be the current link, from `n`
-- on, up to the largest `u8`.
abbrev pub tally : String → ℕ → List (String × String) → ℕ
tally k n [] = n
tally k n ((current, best) ∷ asks) =
    tally k (if str_eq best k then (if str_eq current best then 0 else min (n + 1) 255) else n) asks

abbrev pub streak_of : Session → String → ℕ
streak_of s k = streak k s.sched_state.better_streak

streak-ask :
    (s : Session) (current best k : String)
    → streak_of (should_switchback s current best).1 k ≡ (
        if str_eq best k
        then (if str_eq current best then 0 else min (streak_of s k + 1) 255)
        else streak_of s k)
unfolding should_switchback
streak-ask s current best k = ground (
  arith,
  eq_iff current best,
  eq_iff best k,
  streak-bump k best s.sched_state.better_streak,
  streak-remove k best s.sched_state.better_streak,
)

streak-ask_all :
    (asks : List (String × String)) (s : Session) (k : String)
    → streak_of (ask_all s asks) k ≡ tally k (streak_of s k) asks
streak-ask_all [] s k = refl
streak-ask_all ((current, best) ∷ asks) s k =
    streak-ask_all asks (should_switchback s current best).1 k
    ∙ ap (λ n. tally k n asks) (streak-ask s current best k)

-- After any questions, the answer is yes exactly when the candidate is not the current link and,
-- with this question, was the better one three times since it last was the current link; questions
-- about other candidates do not count, and do not start the count again.
pub should_switchback_lem :
    (asks : List (String × String)) (s : Session) (current best : String)
    → streak_of s best ≡ 0
    → ((should_switchback (ask_all s asks) current best).0 ≡ true)
      ↔ ((str_eq current best ≡ false) × (switchback_hysteresis ≤ tally best 0 asks + 1))
unfolding should_switchback
should_switchback_lem asks s current best h = ground (
  arith,
  streak-ask_all asks s best,
  eq_iff current best,
  eq_iff best best,
  streak-bump best best (ask_all s asks).sched_state.better_streak,
)
