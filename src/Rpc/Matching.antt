-- ===== src/Rpc/Matching.antt =====
-- A call gets the response that carries its own number.
use mlink.Prelude.{
  ℕ, zero, suc, ◌+◌, ◌%◌, ◌^◌, ◌==◌, not, ◌≡◌, refl, ap, String, List, [], ◌∷◌, ◌++◌, Option, none,
  some, length, All, All-append, All-retain, Option-cases, inl, inr,
}
use mlink.Protocol.Errors.{Result, ok, err}
use mlink.Rpc.{
  RpcResponse, Status, pending, closed, dropped, answered, Slot, slot_at, change, PendingRequests,
  no_requests, waiter, without, sender_dropped, drop_sender, register, delivered, complete, cancel,
  receiver_dropped, begun, begin, settled, awaited, end, next_id,
}
use mlink.Rpc.Slots.{
  HasId, AnswerMatches, SlotMatches, HasId-change, HasId-append, slot_at-last, All-change,
  SlotMatches-delivered, waiter-All, All-weaken, slot_at-All,
}

pub record Matched (p : PendingRequests) : Type 0 where
  pub slots_match : All SlotMatches p.slots
  pub waiters_match : All (HasId p.slots) p.waiters

-- A change of one slot that keeps what it answered, or forgets it.
waiters_after_change :
    (f : Status → Status) (ss : List Slot) (i : ℕ) (ws : List (ℕ × ℕ))
    → All (HasId ss) ws
    → All (HasId (change f ss i)) ws
waiters_after_change f ss i ws h =
    All-weaken (HasId ss) (HasId (change f ss i)) ws (HasId-change f ss i) h

sender_dropped_status :
    (id : ℕ) (s : Status) → AnswerMatches id s → AnswerMatches id (sender_dropped s)
sender_dropped_status id pending h = tt
sender_dropped_status id closed h = h
sender_dropped_status id dropped h = h
sender_dropped_status id (answered r) h = h

drop_sender_slots :
    (ss : List Slot) (o : Option ℕ) → All SlotMatches ss → All SlotMatches (drop_sender ss o)
drop_sender_slots ss none h = h
drop_sender_slots ss (some t) h =
    All-change SlotMatches sender_dropped ss t (λ s. sender_dropped_status s.id s.status) h

drop_sender_waiters :
    (ss : List Slot) (o : Option ℕ) (ws : List (ℕ × ℕ))
    → All (HasId ss) ws
    → All (HasId (drop_sender ss o)) ws
drop_sender_waiters ss none ws h = h
drop_sender_waiters ss (some t) ws h = waiters_after_change sender_dropped ss t ws h

length-change : (f : Status → Status) (ss : List Slot) (i : ℕ) → length (change f ss i) ≡ length ss
length-change f [] i = refl
length-change f (s ∷ ss) zero = refl
length-change f (s ∷ ss) (suc i) = ap suc (length-change f ss i)

length-drop_sender : (ss : List Slot) (o : Option ℕ) → length (drop_sender ss o) ≡ length ss
length-drop_sender ss none = refl
length-drop_sender ss (some t) = length-change sender_dropped ss t

new_slot :
    (ss : List Slot) (n id : ℕ)
    → length ss ≡ n
    → HasId (ss ++ (record { id = id; status = pending } ∷ [])) (id, n)
new_slot ss n id e = rw (← e) (
  record { id = id; status = pending },
  slot_at-last ss (record { id = id; status = pending }),
  refl,
)

register-Matched : (p : PendingRequests) (id : ℕ) → Matched p → Matched (register p id).1
unfolding register
register-Matched p id m =
    let o = waiter id p.waiters in
    let ss = drop_sender p.slots o in
    let fresh : List Slot = record { id = id; status = pending } ∷ [] in
    record {
      slots_match =
          All-append SlotMatches ss fresh (drop_sender_slots p.slots o m.slots_match) (tt, tt);
      waiters_match = (
        new_slot ss (length p.slots) id (length-drop_sender p.slots o),
        All-weaken (HasId ss) (HasId (ss ++ fresh)) (without id p.waiters) (HasId-append ss fresh) (
            All-retain (HasId ss) (λ w. not (w.0 == id)) p.waiters
              (drop_sender_waiters p.slots o p.waiters m.waiters_match)),
      );
    }

complete-Matched : (p : PendingRequests) (r : RpcResponse) → Matched p → Matched (complete p r).1
unfolding complete
complete-Matched p r m = elim (Option-cases (waiter r.request_id p.waiters)) [
  | inl e ↦ rw e m
  | inr (t, e) ↦ rw e (record {
    slots_match =
        SlotMatches-delivered r p.slots t
          (waiter-All (HasId p.slots) p.waiters r.request_id t e m.waiters_match) m.slots_match;
    waiters_match =
        waiters_after_change (delivered r) p.slots t (without r.request_id p.waiters)
          (All-retain (HasId p.slots) (λ w. not (w.0 == r.request_id)) p.waiters m.waiters_match);
  })
]

cancel-Matched : (p : PendingRequests) (id : ℕ) → Matched p → Matched (cancel p id).1
unfolding cancel
cancel-Matched p id m = record {
  slots_match = drop_sender_slots p.slots (waiter id p.waiters) m.slots_match;
  waiters_match =
      All-retain (HasId (drop_sender p.slots (waiter id p.waiters))) (λ w. not (w.0 == id))
        p.waiters (drop_sender_waiters p.slots (waiter id p.waiters) p.waiters m.waiters_match);
}

receiver_gone-Matched :
    (p : PendingRequests) (t : ℕ)
    → Matched p
    → Matched (record p { slots = change receiver_dropped p.slots t })
receiver_gone-Matched p t m = record {
  slots_match = All-change SlotMatches receiver_dropped p.slots t (λ s h. tt) m.slots_match;
  waiters_match = waiters_after_change receiver_dropped p.slots t p.waiters m.waiters_match;
}

begun-Matched :
    (r : Result (Unit {0})) (id t : ℕ) (p : PendingRequests)
    → Matched p
    → Matched (begun r id (t, p)).1
begun-Matched (ok x) id t p m = m
begun-Matched (err e) id t p m = receiver_gone-Matched p t m

begin-Matched :
    (p : PendingRequests) (send : ℕ → Result (Unit {0})) → Matched p → Matched (begin p send).1
unfolding begin next_id
begin-Matched p send m =
    let q : PendingRequests = record p { next_number = (p.next_number + 1) % 2 ^ 16 } in
    begun-Matched (send p.next_number) p.next_number (register q p.next_number).0
      (register q p.next_number).1
      (register-Matched q p.next_number
        (record { slots_match = m.slots_match; waiters_match = m.waiters_match }))

settled-Matched :
    (from_utf8 : List ℕ → Option String) (p : PendingRequests) (id t : ℕ) (s : Status)
    → Matched p
    → Matched (settled from_utf8 p id t s).1
unfolding settled
settled-Matched from_utf8 p id t (answered r) m = receiver_gone-Matched p t m
settled-Matched from_utf8 p id t closed m = receiver_gone-Matched p t m
settled-Matched from_utf8 p id t dropped m = m
settled-Matched from_utf8 p id t pending m =
    cancel-Matched (record p { slots = change receiver_dropped p.slots t }) id
      (receiver_gone-Matched p t m)

end-Matched :
    (from_utf8 : List ℕ → Option String) (p : PendingRequests) (id t : ℕ)
    → Matched p
    → Matched (end from_utf8 p id t).1
unfolding end awaited
end-Matched from_utf8 p id t m = elim (Option-cases (slot_at p.slots t)) [
  | inl e ↦ rw e m
  | inr (s, e) ↦ rw e (settled-Matched from_utf8 p id t s.status m)
]

-- What happens to the table, in any order: a call begins, a response comes in, a call ends.
pub data Event : Type 0 where
  begins : (ℕ → Result (Unit {0})) → Event
  responds : RpcResponse → Event
  ends : ℕ → ℕ → Event

module _ (from_utf8 : List ℕ → Option String) where
  abbrev pub happen : PendingRequests → Event → PendingRequests
  happen p (begins send) = (begin p send).1
  happen p (responds r) = (complete p r).1
  happen p (ends id t) = (end from_utf8 p id t).1

  unfoldable pub run : PendingRequests → List Event → PendingRequests
  run p [] = p
  run p (e ∷ es) = run (happen p e) es

  run-Matched : (p : PendingRequests) (es : List Event) → Matched p → Matched (run p es)
  unfolding run
  run-Matched p [] m = m
  run-Matched p (begins send ∷ es) m = run-Matched (begin p send).1 es (begin-Matched p send m)
  run-Matched p (responds r ∷ es) m = run-Matched (complete p r).1 es (complete-Matched p r m)
  run-Matched p (ends id t ∷ es) m =
      run-Matched (end from_utf8 p id t).1 es (end-Matched from_utf8 p id t m)

  -- Whatever the order of calls, responses, timeouts and failed sends, and however often the
  -- numbers have wrapped: a response that stands in the channel of a call carries the number that
  -- the call was given.
  pub run_answers_match :
      (es : List Event) (t id : ℕ) (r : RpcResponse)
      → slot_at (run no_requests es).slots t ≡ some (record { id = id; status = answered r })
      → r.request_id ≡ id
  run_answers_match es t id r h =
      slot_at-All SlotMatches (run no_requests es).slots t (record { id = id; status = answered r })
        h (run-Matched no_requests es (record { slots_match = tt; waiters_match = tt })).slots_match
