-- ===== src/Protocol/Ack/Serial.antt =====
-- What acknowledgements release, for numbers that do not wrap.
use mlink.Prelude.{
  ℕ, ◌+◌, ◌-◌, ◌%◌, ◌^◌, ◌<◌, ◌≡◌, refl, ap, arith, Bool, true, not, ltb, leb, ◌==◌, ◌&&◌, List, [],
  ◌∷◌, retain, bit, bit-div-pow, bit-zero, bit-le-one, Bool-cases, inl, inr,
}
use mlink.Protocol.Seq.{u32_mod}
use mlink.Protocol.Seq.Serial.{wrapping_sub-ahead, wrapping_sub-behind}
use mlink.Protocol.Ack.{ack_cum, sack, sack_keeps, seq_geq, sack_window}

-- Less than half of the number space apart.
abbrev pub Close : ℕ → ℕ → Type 0
Close a n = (n < a + 2 ^ 31) × (a < n + 2 ^ 31)

pub seq_geq-leb : (a n : ℕ) → Close a n → seq_geq (a % u32_mod) (n % u32_mod) ≡ leb n a
unfolding seq_geq
seq_geq-leb a n h = ground arith

-- The number is in the window of the bitmap over `base`, and its bit is set.
abbrev pub sacked : ℕ → ℕ → ℕ → Bool
sacked base bitmap n = ltb base n && leb n (base + sack_window) && bit bitmap (n - base - 1) == 1

pub sack_keeps-sacked :
    (base bitmap n : ℕ)
    → Close base n
    → sack_keeps (base % u32_mod) bitmap (n % u32_mod) ≡ not (sacked base bitmap n)
unfolding sack_keeps
sack_keeps-sacked base bitmap n h = ground (
  arith,
  bit-div-pow bitmap (n - base - 1),
  bit-le-one bitmap (n - base - 1),
  wrapping_sub-ahead n base,
  wrapping_sub-behind n base,
)

module _ {ℓ} {T : Type ℓ} where
  -- Entries as the ring holds them: their numbers cut to 32 bits.
  abbrev pub wrapped : List (ℕ × T) → List (ℕ × T)
  wrapped [] = []
  wrapped ((n, x) ∷ es) = (n % u32_mod, x) ∷ wrapped es

  abbrev pub AllClose : ℕ → List (ℕ × T) → Type 0
  AllClose a [] = Unit
  AllClose a ((n, x) ∷ es) = Close a n × AllClose a es

  -- `retain` by a test on the wrapped numbers is `retain` by one on the numbers themselves.
  pub retain-wrapped :
      (a : ℕ) (p q : ℕ → Bool)
      → ((n : ℕ) → Close a n → p (n % u32_mod) ≡ q n)
      → (es : List (ℕ × T)) → AllClose a es
      → retain (λ e. p e.0) (wrapped es) ≡ wrapped (retain (λ e. q e.0) es)
  retain-wrapped a p q same [] h = refl
  retain-wrapped a p q same ((n, x) ∷ es) (c, cs) = elim (Bool-cases (q n)) [
    | inl e ↦ rw (same n c, e) (ap (λ l. (n % u32_mod, x) ∷ l) (retain-wrapped a p q same es cs))
    | inr e ↦ rw (same n c, e) (retain-wrapped a p q same es cs)
  ]

  retain_everything :
      (q : ℕ → Bool) → ((n : ℕ) → q n ≡ true) → (es : List (ℕ × T)) → retain (λ e. q e.0) es ≡ es
  retain_everything q h [] = refl
  retain_everything q h ((n, x) ∷ es) = rw (h n) (ap (λ l. (n, x) ∷ l) (retain_everything q h es))

  -- A cumulative acknowledgement of `a` releases exactly the entries up to `a`.
  pub ack_cum_exact :
      (a : ℕ) (es : List (ℕ × T))
      → AllClose a es
      → (ack_cum (record { buf = wrapped es }) (a % u32_mod)).buf
        ≡ wrapped (retain (λ e. ltb a e.0) es)
  unfolding ack_cum
  ack_cum_exact a es h =
      retain-wrapped a (λ s. not (seq_geq (a % u32_mod) s)) (λ n. ltb a n)
        (λ n c. rw (seq_geq-leb a n c) (ground arith)) es h

  -- A selective acknowledgement over `base` releases exactly the entries whose bit is set.
  pub sack_exact :
      (base bitmap : ℕ) (es : List (ℕ × T))
      → AllClose base es
      → (sack (record { buf = wrapped es }) (base % u32_mod) bitmap).buf
        ≡ wrapped (retain (λ e. not (sacked base bitmap e.0)) es)
  unfolding sack
  sack_exact base bitmap es h = elim (Bool-cases (bitmap == 0)) [
    | inl z ↦ rw (
      z,
      retain_everything (λ n. not (sacked base bitmap n))
          (λ n. ground (arith, bit-zero (n - base - 1))) es,
    )
    | inr nz ↦ rw nz (
        retain-wrapped base (sack_keeps (base % u32_mod) bitmap) (λ n. not (sacked base bitmap n))
          (sack_keeps-sacked base bitmap) es h)
  ]
