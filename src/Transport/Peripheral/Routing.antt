-- ===== src/Transport/Peripheral/Routing.antt =====
-- Which channel gets which writes.
use mlink.Prelude.{
  ℕ, zero, suc, ◌<◌, ◌==◌, ◌≡◌, refl, sym, ap, ◌∙◌, arith, String, List, [], ◌∷◌, ◌++◌, Bool, true,
  false, not, ◌&&◌, Option, none, some, if◌then◌else◌, length, lookup, Bool-cases, inl, inr,
}
use mathlib.Core.List.{append_assoc, append-nil}
use mlink.Transport.Peripheral.{
  uuid_matches, classify_write, MacPeripheral, WriteRequest, push, sent_to, with_value,
  did_receive_writes, inbox,
}

length-push : (bs : List (List (List ℕ))) (i : ℕ) (m : List ℕ) → length (push bs i m) ≡ length bs
length-push [] i m = refl
length-push (b ∷ bs) zero m = refl
length-push (b ∷ bs) (suc i) m = ap suc (length-push bs i m)

inbox-push :
    (bs : List (List (List ℕ))) (j i : ℕ) (m : List ℕ)
    → i < length bs
    → inbox (push bs j m) i ≡ (if j == i then inbox bs i ++ (m ∷ []) else inbox bs i)
inbox-push [] j i m h = absurd (omega arith)
inbox-push (b ∷ bs) zero zero m h = refl
inbox-push (b ∷ bs) zero (suc i) m h = ground arith
inbox-push (b ∷ bs) (suc j) zero m h = ground arith
inbox-push (b ∷ bs) (suc j) (suc i) m h = ground (arith, inbox-push bs j i m (omega arith))

abbrev is_at : ℕ → Option ℕ → Bool
is_at i none = false
is_at i (some j) = j == i

-- A write is for channel `i` if it goes to the TX characteristic, has bytes, and the table gives its
-- central that channel.
abbrev pub value_for :
    List ℕ → List (String × ℕ) → ℕ → WriteRequest → Option (List ℕ) → List (List ℕ)
value_for tx table i req none = []
value_for tx table i req (some bytes) =
    if uuid_matches req.char_uuid tx
      && (not (length bytes == 0) && is_at i (lookup req.central table))
    then bytes ∷ []
    else []

abbrev pub all_for_channel : List ℕ → List (String × ℕ) → ℕ → List WriteRequest → List (List ℕ)
all_for_channel tx table i [] = []
all_for_channel tx table i (req ∷ reqs) =
    value_for tx table i req req.value ++ all_for_channel tx table i reqs

-- One write: only the inboxes change.
record Step (p q : MacPeripheral) (i : ℕ) (more : List (List ℕ)) : Type 0 where
  same_tx : q.tx_char_uuid ≡ p.tx_char_uuid
  same_table : q.per_central_tx ≡ p.per_central_tx
  same_length : length q.inboxes ≡ length p.inboxes
  added : inbox q.inboxes i ≡ inbox p.inboxes i ++ more

nothing : (p : MacPeripheral) (i : ℕ) → Step p p i []
nothing p i = record {
  same_tx = refl;
  same_table = refl;
  same_length = refl;
  added = sym (append-nil (inbox p.inboxes i));
}

either :
    (b : Bool) (xs : List (List ℕ)) (m : List ℕ)
    → (if b then xs ++ (m ∷ []) else xs) ≡ xs ++ (if b then m ∷ [] else [])
either true xs m = refl
either false xs m = sym (append-nil xs)

sent_to-Step :
    (p : MacPeripheral) (i : ℕ) (bytes : List ℕ) (o : Option ℕ)
    → i < length p.inboxes
    → Step p (sent_to p bytes o) i (if is_at i o then bytes ∷ [] else [])
sent_to-Step p i bytes none h = nothing p i
sent_to-Step p i bytes (some j) h = record {
  same_tx = refl;
  same_table = refl;
  same_length = length-push p.inboxes j bytes;
  added = inbox-push p.inboxes j i bytes h ∙ either (j == i) (inbox p.inboxes i) bytes;
}

with_value-Step :
    (p : MacPeripheral) (i : ℕ) (req : WriteRequest) (v : Option (List ℕ))
    → i < length p.inboxes
    → Step p (with_value p req v) i (value_for p.tx_char_uuid p.per_central_tx i req v)
unfolding with_value classify_write
with_value-Step p i req none h = nothing p i
with_value-Step p i req (some bytes) h =
    elim (Bool-cases (uuid_matches req.char_uuid p.tx_char_uuid)) [
      | inr other ↦ rw other (nothing p i)
      | inl tx ↦ elim (Bool-cases (length bytes == 0)) [
        | inl empty ↦ rw (tx, empty) (nothing p i)
        | inr full ↦ rw (tx, full) (sent_to-Step p i bytes (lookup req.central p.per_central_tx) h)
      ]
    ]

-- After a batch of writes, each channel has what it had, and then the writes of the batch that are for
-- it, in their order: those to the TX characteristic, not empty, of the central whose entry in the
-- table it is. So no channel gets a write of another central, or one to another characteristic.
pub inbox-did_receive_writes :
    (p : MacPeripheral) (reqs : List WriteRequest) (i : ℕ)
    → i < length p.inboxes
    → inbox (did_receive_writes p reqs).inboxes i
      ≡ inbox p.inboxes i ++ all_for_channel p.tx_char_uuid p.per_central_tx i reqs
unfolding did_receive_writes
inbox-did_receive_writes p [] i h = sym (append-nil (inbox p.inboxes i))
inbox-did_receive_writes p (req ∷ reqs) i h =
    let q = with_value p req req.value in
    let st = with_value-Step p i req req.value h in
    let more = value_for p.tx_char_uuid p.per_central_tx i req req.value in
    inbox-did_receive_writes q reqs i (omega (arith, h, st.same_length))
    ∙ ap (λ t. inbox q.inboxes i ++ all_for_channel t q.per_central_tx i reqs) st.same_tx
    ∙ ap (λ t. inbox q.inboxes i ++ all_for_channel p.tx_char_uuid t i reqs) st.same_table
    ∙ ap (λ t. t ++ all_for_channel p.tx_char_uuid p.per_central_tx i reqs) st.added
    ∙ append_assoc (inbox p.inboxes i) more (all_for_channel p.tx_char_uuid p.per_central_tx i reqs)
