-- ===== src/Protocol/Seq/Refines.antt =====
-- The window of 128 bits and 32-bit numbers does what the list of accepted numbers does, as long
-- as each number is less than 2 ^ 31 from the largest.
use mlink.Prelude.{
  ℕ, zero, suc, ◌+◌, ◌-◌, ◌*◌, ◌%◌, ◌^◌, ◌<◌, ◌≤◌, ◌≡◌, arith, true, false, ◌&&◌, ltb, ltb→lt, leb,
  ◌==◌, if◌then◌else◌, max, bit_or, bit, bit-le-one, bit-bit_or, bit-pow, bit-shift, bit-mod-pow,
  bit_and-pow, bit_and, Bool-cases, inl, inr,
}
use native.Mathlib.Nat.{one-le-pow}
use mlink.Protocol.Seq.{
  DedupWindow, accept, duplicate, stale, observe, observe_back, u32_mod, wrapping_sub, u128_mod,
}
use mlink.Protocol.Seq.Serial.{wrapping_sub-ahead}
use mlink.Protocol.Seq.Window.{
  Log, IsLog, contains, contains-above, contains-is_nil, judge, judge-IsLog, started, admit,
}

-- Bit `i` tells of the number `i` below the largest.
abbrev pub expected : Log → ℕ → ℕ
expected l i = if leb i l.top && contains l.accepted (l.top - i) then 1 else 0

pub record Refines (w : DedupWindow) (l : Log) : Type 0 where
  pub is_log : IsLog l
  pub seen_eq : w.seen ≡ started l
  pub last_eq : started l ≡ true → w.last ≡ l.top % u32_mod
  pub bits_eq : started l ≡ true → (i : ℕ) → i < 128 → bit w.bits i ≡ expected l i

-- The numbers that the window tells apart from where it stands.
abbrev pub Near : Log → ℕ → Type 0
Near l n = started l ≡ true → (n < l.top + 2 ^ 31) × (l.top ≤ n + 2 ^ 31)

-- The bits after a step of `f` up, `f` below 128.
bits_forward :
    (b f i : ℕ)
    → i < 128
    → bit (bit_or (b * 2 ^ f % u128_mod) 1) i ≡ (
        if i == 0
        then max (bit (b * 2 ^ f % u128_mod) 0) 1
        else if ltb i f
        then 0
        else bit b (i - f))
bits_forward b f zero h = ground (arith, bit-bit_or (b * 2 ^ f % u128_mod) 1 0, bit-pow 0 0)
bits_forward b f (suc i) h = ground (
  arith,
  bit-bit_or (b * 2 ^ f % u128_mod) 1 (suc i),
  bit-pow 0 (suc i),
  bit-mod-pow 128 (b * 2 ^ f) (suc i),
  bit-shift b f (suc i),
)

mask_test : (b d : ℕ) → (bit_and b (2 ^ d) == 0) ≡ (bit b d == 0)
mask_test b d = ground (arith, bit_and-pow b d, one-le-pow d 2, bit-le-one b d)

le→leb : (a b : ℕ) → a ≤ b → leb a b ≡ true
le→leb a b h = ground arith

module _ (w : DedupWindow) (l : Log) (n : ℕ) (r : Refines w l) where
  agree_seen : (observe w (n % u32_mod)).1.seen ≡ started (judge l n).1
  unfolding observe judge
  agree_seen = ground (arith, r.seen_eq)

  agree_last : Near l n → (observe w (n % u32_mod)).1.last ≡ (judge l n).1.top % u32_mod
  unfolding observe judge
  agree_last near = ground (arith, r.seen_eq, r.last_eq)

  -- How far the number is behind the largest.
  back_distance :
      Near l n → started l ≡ true → n ≤ l.top → wrapping_sub w.last (n % u32_mod) ≡ l.top - n
  back_distance near s h = rw (r.last_eq s) (wrapping_sub-ahead l.top n h (ground (arith, near)))

  back_bit :
      started l ≡ true
      → n ≤ l.top
      → l.top - n < 128
      → bit w.bits (l.top - n) ≡ (if contains l.accepted n then 1 else 0)
  back_bit s h d =
      let e : l.top - (l.top - n) ≡ n = omega arith in
      let b : bit w.bits (l.top - n) ≡ expected l (l.top - n) = r.bits_eq s (l.top - n) d in
      rw (e, le→leb (l.top - n) l.top (omega arith)) at b

  agree_back :
      Near l n
      → started l ≡ true
      → n ≤ l.top
      → (observe_back w (n % u32_mod)).0 ≡ (
          if leb 128 (l.top - n)
          then stale
          else if contains l.accepted n
          then duplicate
          else accept)
  unfolding observe_back
  agree_back near s h =
      rw (back_distance near s h) (ground (arith, mask_test w.bits (l.top - n), back_bit s h))

  top_is_contained : started l ≡ true → n ≡ l.top → contains l.accepted n ≡ true
  top_is_contained s e = rw e (r.is_log.has_top s)

  agree_answer : Near l n → (observe w (n % u32_mod)).0 ≡ (judge l n).0
  unfolding observe judge
  agree_answer near = ground (arith, r.seen_eq, r.last_eq, agree_back, top_is_contained)

  above_is_new : (m : ℕ) → l.top < m → contains l.accepted m ≡ false
  above_is_new m h = contains-above l.accepted l.top m r.is_log.below h

  bits_first :
      started l ≡ false
      → (i : ℕ) → i < 128
      → bit (observe w (n % u32_mod)).1.bits i ≡ expected (judge l n).1 i
  unfolding observe judge
  bits_first s i h = ground (arith, r.seen_eq, bit-pow 0 i, contains-is_nil l.accepted (n - i))

  bits_after_up :
      Near l n
      → started l ≡ true
      → l.top < n
      → (observe w (n % u32_mod)).1.bits
        ≡ (if leb 128 (n - l.top) then 1 else bit_or (w.bits * 2 ^ (n - l.top) % u128_mod) 1)
  unfolding observe
  bits_after_up near s up = ground (arith, r.seen_eq, r.last_eq, wrapping_sub-ahead n l.top)

  judge_up : started l ≡ true → l.top < n → (judge l n).1 ≡ admit l n n
  unfolding judge
  judge_up s up = ground arith

  bits_up :
      Near l n
      → started l ≡ true
      → l.top < n
      → (i : ℕ) → i < 128
      → bit (observe w (n % u32_mod)).1.bits i ≡ expected (judge l n).1 i
  bits_up near s up i h =
      rw (bits_after_up near s up, judge_up s up)
        (ground (
          arith,
          bits_forward w.bits (n - l.top) i,
          bit-pow 0 i,
          above_is_new (n - i),
          r.bits_eq s (i - (n - l.top)),
          bit-le-one (w.bits * 2 ^ (n - l.top) % u128_mod) 0,
        ))

  bits_after_back :
      Near l n
      → started l ≡ true
      → n ≤ l.top
      → (observe w (n % u32_mod)).1.bits ≡ (
          if leb 128 (l.top - n)
          then w.bits
          else if contains l.accepted n
          then w.bits
          else bit_or w.bits (2 ^ (l.top - n)))
  unfolding observe observe_back
  bits_after_back near s h = ground (
    arith,
    r.seen_eq,
    r.last_eq,
    back_distance near s h,
    mask_test w.bits (l.top - n),
    back_bit s h,
    top_is_contained,
  )

  judge_back :
      started l ≡ true
      → n ≤ l.top
      → (judge l n).1
        ≡ (if leb 128 (l.top - n) then l else if contains l.accepted n then l else admit l n l.top)
  unfolding judge
  judge_back s h = ground arith

  bits_back :
      Near l n
      → started l ≡ true
      → n ≤ l.top
      → (i : ℕ) → i < 128
      → bit (observe w (n % u32_mod)).1.bits i ≡ expected (judge l n).1 i
  bits_back near s up i h =
      rw (bits_after_back near s up, judge_back s up)
        (ground (
          arith,
          bit-bit_or w.bits (2 ^ (l.top - n)) i,
          bit-pow (l.top - n) i,
          r.bits_eq s i,
          bit-le-one w.bits i,
        ))

  -- One number: the same judgement, and the window still stands for the list.
  pub observe-Refines :
      Near l n
      → Refines (observe w (n % u32_mod)).1 (judge l n).1
        × ((observe w (n % u32_mod)).0 ≡ (judge l n).0)
  observe-Refines near = (
    record {
      is_log = judge-IsLog l n r.is_log;
      seen_eq = agree_seen;
      last_eq = λ _. agree_last near;
      bits_eq = λ _. elim (Bool-cases (started l)) [
        | inr f ↦ bits_first f
        | inl s ↦ elim (Bool-cases (ltb l.top n)) [
          | inl up ↦ bits_up near s (ltb→lt _ _ up)
          | inr back ↦ bits_back near s (ground arith)
        ]
      ];
    },
    agree_answer near,
  )
