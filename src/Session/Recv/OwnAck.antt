-- ===== src/Session/Recv/OwnAck.antt =====
-- The acknowledgement that a reader sends of what it received, in the hands of the sender.
use mlink.Prelude.{
  ℕ, ◌+◌, ◌-◌, ◌%◌, ◌≤◌, ◌≡◌, refl, sym, arith, List, [], ◌∷◌, Bool, true, false, not, ◌&&◌, leb,
  ltb, ◌==◌, ap, ◌∙◌, retain, Bool-cases, inl, inr,
}
use mlink.Protocol.Seq.{u32_mod, snapshot}
use mlink.Protocol.Seq.Window.{Log, started}
use mlink.Protocol.Seq.Refines.{Refines, expected}
use mlink.Protocol.Ack.{AckFrame, UnackedRing, ack_cum, sack, sack_window}
use mlink.Protocol.Ack.Serial.{wrapped, sacked, AllClose, ack_cum_exact, sack_exact}
use mlink.Session.State.{Session, PendingFrame}
use mlink.Session.Send.{on_ack}
use mlink.Session.Recv.{own_ack}

module _ {ℓ} {T : Type ℓ} where
  AllClose-retain :
      (a : ℕ) (q : ℕ → Bool) (es : List (ℕ × T))
      → AllClose a es
      → AllClose a (retain (λ e. q e.0) es)
  AllClose-retain a q [] h = tt
  AllClose-retain a q ((n, x) ∷ es) h = elim (Bool-cases (q n)) [
    | inl e ↦ rw e (h.0, AllClose-retain a q es h.1)
    | inr e ↦ rw e (AllClose-retain a q es h.1)
  ]

  retain_twice :
      (p q r : ℕ → Bool)
      → ((n : ℕ) → r n ≡ (p n && q n))
      → (es : List (ℕ × T)) → retain (λ e. q e.0) (retain (λ e. p e.0) es) ≡ retain (λ e. r e.0) es
  retain_twice p q r h [] = refl
  retain_twice p q r h ((n, x) ∷ es) = elim (Bool-cases (p n)) [
    | inl e ↦ elim (Bool-cases (q n)) [
      | inl f ↦ rw (h n, e, f) (ap (λ l. (n, x) ∷ l) (retain_twice p q r h es))
      | inr f ↦ rw (h n, e, f) (retain_twice p q r h es)
    ]
    | inr e ↦ rw (h n, e) (retain_twice p q r h es)
  ]

  retain-ext :
      (p q : ℕ → Bool)
      → ((n : ℕ) → p n ≡ q n)
      → (es : List (ℕ × T)) → retain (λ e. p e.0) es ≡ retain (λ e. q e.0) es
  retain-ext p q h [] = refl
  retain-ext p q h ((n, x) ∷ es) = rw (h n, retain-ext p q h es)

-- What an acknowledgement releases, both parts of it.
pub on_ack_exact :
    (t : Session) (a bitmap : ℕ) (es : List (ℕ × PendingFrame))
    → t.unacked.buf ≡ wrapped es
    → AllClose a es
    → (on_ack t (record { ack = a % u32_mod; bitmap = bitmap })).unacked.buf
      ≡ wrapped (retain (λ e. ltb a e.0 && not (sacked a bitmap e.0)) es)
unfolding on_ack
on_ack_exact t a bitmap es e close =
    let kept = retain (λ e. ltb a e.0) es in
    let q : ack_cum t.unacked (a % u32_mod) ≡ record { buf = wrapped kept } =
      ap (λ (l : List (ℕ × PendingFrame)). ack_cum (record { buf = l }) (a % u32_mod)) e
      ∙ ap (λ (l : List (ℕ × PendingFrame)). record { buf = l }) (ack_cum_exact a es close) in
    ap (λ (r : UnackedRing PendingFrame). (sack r (a % u32_mod) bitmap).buf) q
    ∙ sack_exact a bitmap kept (AllClose-retain a (λ n. ltb a n) es close)
    ∙ ap wrapped (
        retain_twice (λ n. ltb a n) (λ n. not (sacked a bitmap n))
          (λ n. ltb a n && not (sacked a bitmap n)) (λ n. refl) es)

-- What the sender keeps on the acknowledgement of a reader whose log is `l`: only numbers above the
-- largest, and of the 128 above it those whose mirror image below it was not accepted.
abbrev pub survives : Log → ℕ → Bool
survives l n = ltb l.top n && not (leb n (l.top + sack_window) && expected l (n - (l.top + 1)) == 1)

module _ (r : Session) (l : Log) (refines : Refines r.dedup l)
    (some_arrived : started l ≡ true) where
  own_ack-eq : own_ack r ≡ record { ack = l.top % u32_mod; bitmap = r.dedup.bits }
  unfolding snapshot
  own_ack-eq = rw (refines.seen_eq, some_arrived, refines.last_eq some_arrived)

  survives-eq : (n : ℕ) → survives l n ≡ (ltb l.top n && not (sacked l.top r.dedup.bits n))
  survives-eq n = elim (Bool-cases (ltb l.top n && leb n (l.top + sack_window))) [
    | inl e ↦ ground (arith, e, refines.bits_eq some_arrived (n - l.top - 1))
    | inr e ↦ ground (arith, e)
  ]

  lost_below : (n : ℕ) → n ≤ l.top + 1 → survives l n ≡ false
  lost_below n h = elim (Bool-cases (ltb l.top n)) [
    | inl e ↦
        let q : n - (l.top + 1) ≡ 0 = ground (arith, e) in
        ground (arith, e, q, refines.is_log.has_top some_arrived)
    | inr e ↦ ground (arith, e)
  ]

  -- The acknowledgement that a reader sends of what it received makes the sender forget every frame
  -- up to the largest number received, and the one after it (any such `n`), whether received or not;
  -- of the frames beyond, the mirror images of the numbers that were received.
  pub on_ack-own_ack :
      (t : Session) (es : List (ℕ × PendingFrame)) (n : ℕ)
      → t.unacked.buf ≡ wrapped es
      → AllClose l.top es
      → n ≤ l.top + 1
      → ((on_ack t (own_ack r)).unacked.buf ≡ wrapped (retain (λ e. survives l e.0) es))
        × (survives l n ≡ false)
  on_ack-own_ack t es n e close h = (
    ap (λ (a : AckFrame). (on_ack t a).unacked.buf) own_ack-eq
        ∙ on_ack_exact t l.top r.dedup.bits es e close
        ∙ ap wrapped (retain-ext _ (survives l) (λ n. sym (survives-eq n)) es),
    lost_below n h,
  )
