-- ===== src/Protocol/Ack/Ring.antt =====
-- The ring of unacknowledged frames keeps the newest 256 of them, in order.
use mlink.Prelude.{
  keep_last, keep_last_twice, ℕ, ◌-◌, ◌<◌, ◌≤◌, ◌≡◌, ◌≢◌, ◌↔◌, refl, arith, Option, none, some,
  List, [], ◌∷◌, ◌++◌, length, length-append, length-drop, drop, leb, Bool-cases, inl, inr, ◌∙◌,
  false,
}
use mathlib.Core.List.{append_assoc, append-nil}
use mlink.Protocol.Ack.{UnackedRing, new_ring, push, pop_front, unacked_ring_cap, is_full}

module _ {ℓ} {T : Type ℓ} where
  pop_front-append :
      (xs ys : List (ℕ × T)) → 0 < length xs → (pop_front xs).1 ++ ys ≡ drop 1 (xs ++ ys)
  pop_front-append [] ys h = absurd (omega arith)
  pop_front-append (x ∷ xs) ys h = refl

  pop_front_some : (xs : List (ℕ × T)) → 0 < length xs → (pop_front xs).0 ≢ none
  pop_front_some [] h e = absurd (omega arith)
  pop_front_some (x ∷ xs) h e = cc

  buf-push :
      (r : UnackedRing T) (seq : ℕ) (item : T)
      → length r.buf ≤ unacked_ring_cap
      → (push r seq item).1.buf ≡ keep_last unacked_ring_cap (r.buf ++ ((seq, item) ∷ []))
  unfolding push
  buf-push r seq item h = elim (Bool-cases (leb unacked_ring_cap (length r.buf))) [
    | inl full ↦
        let e : length (r.buf ++ ((seq, item) ∷ [])) - unacked_ring_cap ≡ 1 =
          ground (arith, length-append r.buf ((seq, item) ∷ [])) in
        rw (full, e) (pop_front-append r.buf ((seq, item) ∷ []) (ground arith))
    | inr room ↦
        let e : length (r.buf ++ ((seq, item) ∷ [])) - unacked_ring_cap ≡ 0 =
          ground (arith, length-append r.buf ((seq, item) ∷ [])) in
        rw (room, e)
  ]

  -- Pushes of a whole list.
  abbrev pub push_all : UnackedRing T → List (ℕ × T) → UnackedRing T
  push_all r [] = r
  push_all r ((seq, item) ∷ es) = push_all (push r seq item).1 es

  length-keep_last : (n : ℕ) (xs : List (ℕ × T)) → length (keep_last n xs) ≤ n
  length-keep_last n xs = omega (arith, length-drop (length xs - n) xs)

  buf-push_all :
      (es : List (ℕ × T)) (r : UnackedRing T)
      → length r.buf ≤ unacked_ring_cap
      → (push_all r es).buf ≡ keep_last unacked_ring_cap (r.buf ++ es)
  buf-push_all [] r h =
      let e : length r.buf - unacked_ring_cap ≡ 0 = omega arith in rw (append-nil, e)
  buf-push_all ((seq, item) ∷ es) r h =
      buf-push_all es (push r seq item).1 (
        rw (buf-push r seq item h)
          (length-keep_last unacked_ring_cap (r.buf ++ ((seq, item) ∷ []))))
      ∙ rw (buf-push r seq item h, keep_last_twice, append_assoc)

  -- After any pushes onto an empty ring it holds the last 256 entries pushed, in their order.
  pub push_all-keep_last :
      (es : List (ℕ × T)) → (push_all new_ring es).buf ≡ keep_last unacked_ring_cap es
  push_all-keep_last es = buf-push_all es new_ring (omega arith)

  -- The evicted entry with the ring after it, or the ring alone if none is evicted.
  abbrev pub with_evicted : Option (ℕ × T) × UnackedRing T → List (ℕ × T)
  with_evicted (none, r) = r.buf
  with_evicted (some e, r) = e ∷ r.buf

  with_evicted-push :
      (xs ys : List (ℕ × T))
      → with_evicted ((pop_front xs).0, record { buf = (pop_front xs).1 ++ ys }) ≡ xs ++ ys
  with_evicted-push [] ys = refl
  with_evicted-push (x ∷ xs) ys = refl

  with_evicted-cases :
      (r : UnackedRing T) (seq : ℕ) (item : T)
      → with_evicted (push r seq item) ≡ r.buf ++ ((seq, item) ∷ [])
  unfolding push
  with_evicted-cases r seq item = elim (Bool-cases (leb unacked_ring_cap (length r.buf))) [
    | inl full ↦ rw full (with_evicted-push r.buf ((seq, item) ∷ []))
    | inr room ↦ rw room
  ]

  evicts_iff :
      (r : UnackedRing T) (seq : ℕ) (item : T) → ((push r seq item).0 ≡ none) ↔ (is_full r ≡ false)
  unfolding push is_full
  evicts_iff r seq item = ground (arith, pop_front_some r.buf)

  -- A push loses nothing: what it evicts stood first in the ring, and it evicts exactly when the
  -- ring is full. The ring stays within its bound.
  pub push_evicts_oldest :
      (r : UnackedRing T) (seq : ℕ) (item : T)
      → length r.buf ≤ unacked_ring_cap
      → (with_evicted (push r seq item) ≡ r.buf ++ ((seq, item) ∷ []))
        × (((push r seq item).0 ≡ none) ↔ (is_full r ≡ false))
        × (length (push r seq item).1.buf ≤ unacked_ring_cap)
  push_evicts_oldest r seq item h = (
    with_evicted-cases r seq item,
    evicts_iff r seq item,
    rw (buf-push r seq item h) (length-keep_last unacked_ring_cap (r.buf ++ ((seq, item) ∷ []))),
  )
