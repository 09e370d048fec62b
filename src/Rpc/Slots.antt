-- ===== src/Rpc/Slots.antt =====
-- The slots of the oneshot channels, one by one.
use mlink.Prelude.{
  ℕ, zero, suc, ◌==◌, ◌≡◌, refl, arith, ==_iff, List, [], ◌∷◌, ◌++◌, some, length, All, Bool-cases,
  inl, inr,
}
use mlink.Rpc.{
  RpcResponse, Status, pending, closed, dropped, answered, Slot, slot_at, change, waiter, delivered,
}

abbrev pub HasId : List Slot → ℕ × ℕ → Type 0
HasId slots w = (s : Slot) × (slot_at slots w.1 ≡ some s) × (s.id ≡ w.0)

-- An answer in a slot carries the slot's number.
abbrev pub AnswerMatches : ℕ → Status → Type 0
AnswerMatches id (answered r) = r.request_id ≡ id
AnswerMatches id s = Unit

abbrev pub SlotMatches : Slot → Type 0
SlotMatches s = AnswerMatches s.id s.status

pub HasId-change :
    (f : Status → Status) (ss : List Slot) (i : ℕ) (w : ℕ × ℕ)
    → HasId ss w
    → HasId (change f ss i) w
HasId-change f [] i w h = h
HasId-change f (x ∷ ss) zero (id, zero) (s, e, k) =
    (record x { status = f x.status }, refl, ground (arith, e, k))
HasId-change f (x ∷ ss) zero (id, suc j) h = h
HasId-change f (x ∷ ss) (suc i) (id, zero) h = h
HasId-change f (x ∷ ss) (suc i) (id, suc j) h = HasId-change f ss i (id, j) h

pub HasId-append : (ss ys : List Slot) (w : ℕ × ℕ) → HasId ss w → HasId (ss ++ ys) w
HasId-append [] ys w (s, e, k) = absurd (ground (arith, e))
HasId-append (x ∷ ss) ys (id, zero) h = h
HasId-append (x ∷ ss) ys (id, suc j) h = HasId-append ss ys (id, j) h

pub slot_at-last : (ss : List Slot) (s : Slot) → slot_at (ss ++ (s ∷ [])) (length ss) ≡ some s
slot_at-last [] s = refl
slot_at-last (x ∷ ss) s = slot_at-last ss s

pub All-change {κ} :
    (P : Slot → Type κ) (f : Status → Status) (ss : List Slot) (i : ℕ)
    → ((s : Slot) → P s → P (record s { status = f s.status }))
    → All P ss
    → All P (change f ss i)
All-change P f [] i keep h = h
All-change P f (x ∷ ss) zero keep h = (keep x h.0, h.1)
All-change P f (x ∷ ss) (suc i) keep h = (h.0, All-change P f ss i keep h.1)

delivered_status :
    (r : RpcResponse) (id : ℕ) (s : Status)
    → r.request_id ≡ id
    → AnswerMatches id s
    → AnswerMatches id (delivered r s)
delivered_status r id pending e h = e
delivered_status r id closed e h = h
delivered_status r id dropped e h = h
delivered_status r id (answered q) e h = h

pub SlotMatches-delivered :
    (r : RpcResponse) (ss : List Slot) (t : ℕ)
    → HasId ss (r.request_id, t)
    → All SlotMatches ss
    → All SlotMatches (change (delivered r) ss t)
SlotMatches-delivered r [] t k h = h
SlotMatches-delivered r (x ∷ ss) zero (s, e, k) h =
    (delivered_status r x.id x.status (ground (arith, e, k)) h.0, h.1)
SlotMatches-delivered r (x ∷ ss) (suc t) k h = (h.0, SlotMatches-delivered r ss t k h.1)

pub waiter-All {κ} :
    (P : ℕ × ℕ → Type κ) (ws : List (ℕ × ℕ)) (id t : ℕ)
    → waiter id ws ≡ some t
    → All P ws
    → P (id, t)
waiter-All P [] id t e h = absurd (ground (arith, e))
waiter-All P ((j, u) ∷ ws) id t e h = elim (Bool-cases (j == id)) [
  | inl same ↦
      let k : some u ≡ some t = rw same at e in
      let k' : u ≡ t = ground (arith, k) in
      let k'' : j ≡ id = (==_iff j id).0 same in rw (← k', ← k'') h.0
  | inr other ↦ waiter-All P ws id t (rw other at e) h.1
]

pub All-weaken {ℓ κ} :
    {A : Type ℓ} (P Q : A → Type κ) (xs : List A) → ((x : A) → P x → Q x) → All P xs → All Q xs
All-weaken P Q [] f h = tt
All-weaken P Q (x ∷ xs) f h = (f x h.0, All-weaken P Q xs f h.1)

pub slot_at-All {κ} :
    (P : Slot → Type κ) (ss : List Slot) (t : ℕ) (s : Slot) → slot_at ss t ≡ some s → All P ss → P s
slot_at-All P [] t s e h = absurd (ground (arith, e))
slot_at-All P (x ∷ ss) zero s e h = let e' : x ≡ s = ground (arith, e) in rw (← e') h.0
slot_at-All P (x ∷ ss) (suc t) s e h = slot_at-All P ss t s e h.1
