-- ===== src/Rpc.antt =====
-- crates/mlink-core/src/api/rpc.rs: the requests that wait for their response, and the handlers.
-- A oneshot channel is a slot in a list, named by its place; both halves of it are kept there. A slot
-- keeps the number of its request.
mod Slots
pub mod Matching
pub mod Dispatch
pub mod Calls
mod Samples
mod Tests
use mlink.Prelude.{
  ℕ, zero, suc, ◌+◌, ◌%◌, ◌^◌, ◌==◌, not, String, List, [], ◌∷◌, ◌++◌, Bool, true, false, Option,
  none, some, if◌then◌else◌, length, lookup, insert, delete, retain,
}
use mlink.Protocol.Errors.{
  Result, ok, err, ◌>>=◌, MlinkError, handler_error, unknown_method, timeout,
}

abbrev pub rpc_status_ok : ℕ
rpc_status_ok = 0

abbrev pub rpc_status_error : ℕ
rpc_status_error = 1

pub record RpcRequest : Type 0 where
  pub request_id : ℕ
  pub method : String
  pub bytes : List ℕ

pub record RpcResponse : Type 0 where
  pub request_id : ℕ
  pub status : ℕ
  pub bytes : List ℕ

abbrev pub Handler : Type 0
Handler = List ℕ → Result (List ℕ)

pub record RpcRegistry : Type 0 where
  pub handlers : List (String × Handler)

unfoldable pub register_handler : RpcRegistry → String → Handler → RpcRegistry
register_handler g method h = record { handlers = insert method h g.handlers }

abbrev is_there {ℓ} : {A : Type ℓ} → Option A → Bool
is_there none = false
is_there (some a) = true

unfoldable pub unregister : RpcRegistry → String → Bool × RpcRegistry
unregister g method =
    (is_there (lookup method g.handlers), record { handlers = delete method g.handlers })

unfoldable pub has : RpcRegistry → String → Bool
has g method = is_there (lookup method g.handlers)

abbrev pub handled : String → List ℕ → Option Handler → Result (List ℕ)
handled method bytes none = err (unknown_method method)
handled method bytes (some h) = h bytes

unfoldable pub handle_request : RpcRegistry → String → List ℕ → Result (List ℕ)
handle_request g method bytes = handled method bytes (lookup method g.handlers)

-- `closed`: the sender is gone without an answer. `dropped`: the receiver is gone.
pub data Status : Type 0 where
  pending closed dropped : Status
  answered : RpcResponse → Status

pub record Slot : Type 0 where
  pub id : ℕ
  pub status : Status

abbrev pub slot_at : List Slot → ℕ → Option Slot
slot_at [] i = none
slot_at (s ∷ ss) zero = some s
slot_at (s ∷ ss) (suc i) = slot_at ss i

abbrev pub change : (Status → Status) → List Slot → ℕ → List Slot
change f [] i = []
change f (s ∷ ss) zero = record s { status = f s.status } ∷ ss
change f (s ∷ ss) (suc i) = s ∷ change f ss i

pub record PendingRequests : Type 0 where
  pub next_number : ℕ
  pub waiters : List (ℕ × ℕ)
  pub slots : List Slot

abbrev pub no_requests : PendingRequests
no_requests = record { next_number = 0; waiters = []; slots = [] }

abbrev pub waiter : ℕ → List (ℕ × ℕ) → Option ℕ
waiter id [] = none
waiter id ((j, t) ∷ ws) = if j == id then some t else waiter id ws

abbrev pub without : ℕ → List (ℕ × ℕ) → List (ℕ × ℕ)
without id ws = retain (λ w. not (w.0 == id)) ws

unfoldable pub next_id : PendingRequests → ℕ × PendingRequests
next_id p = (p.next_number, record p { next_number = (p.next_number + 1) % 2 ^ 16 })

-- A sender that is dropped closes a channel that waits.
abbrev pub sender_dropped : Status → Status
sender_dropped pending = closed
sender_dropped s = s

abbrev pub drop_sender : List Slot → Option ℕ → List Slot
drop_sender slots none = slots
drop_sender slots (some t) = change sender_dropped slots t

-- `insert` drops the sender of an earlier request with the same number.
unfoldable pub register : PendingRequests → ℕ → ℕ × PendingRequests
register p id = (
  length p.slots,
  record p {
    waiters = (id, length p.slots) ∷ without id p.waiters;
    slots =
        drop_sender p.slots (waiter id p.waiters) ++ (record { id = id; status = pending } ∷ []);
  },
)

abbrev pub delivered : RpcResponse → Status → Status
delivered r pending = answered r
delivered r s = s

abbrev pub is_open : Option Slot → Bool
is_open none = false
is_open (some s) = elim s.status [ pending ↦ true | _ ↦ false ]

abbrev pub complete_at : PendingRequests → RpcResponse → Option ℕ → Bool × PendingRequests
complete_at p r none = (false, p)
complete_at p r (some t) = (
  is_open (slot_at p.slots t),
  record p { waiters = without r.request_id p.waiters; slots = change (delivered r) p.slots t },
)

unfoldable pub complete : PendingRequests → RpcResponse → Bool × PendingRequests
complete p r = complete_at p r (waiter r.request_id p.waiters)

unfoldable pub cancel : PendingRequests → ℕ → Bool × PendingRequests
cancel p id = (
  is_there (waiter id p.waiters),
  record p { waiters = without id p.waiters; slots = drop_sender p.slots (waiter id p.waiters) },
)

unfoldable pub pending_count : PendingRequests → ℕ
pending_count p = length p.waiters

-- The first half of `rpc_request`: the number, the channel, and the send, whose answer comes in.
-- When the send fails the function returns at once, and the receiver is dropped.
abbrev pub receiver_dropped : Status → Status
receiver_dropped s = dropped

abbrev begun : Result (Unit {0}) → ℕ → ℕ × PendingRequests → Result (ℕ × ℕ) × PendingRequests
begun (ok x) id (t, p) = (ok (id, t), p)
begun (err e) id (t, p) = (err e, record p { slots = change receiver_dropped p.slots t })

unfoldable pub begin : PendingRequests → (ℕ → Result (Unit {0})) → Result (ℕ × ℕ) × PendingRequests
unfolding next_id register
begin p send = let (id, p') = next_id p in begun (send id) id (register p' id)

abbrev or_rpc_error : Option String → String
or_rpc_error none = "rpc error"
or_rpc_error (some text) = text

unfoldable pub answer_of : (List ℕ → Option String) → RpcResponse → Result (List ℕ)
answer_of from_utf8 resp =
    if resp.status == rpc_status_ok
    then ok resp.bytes
    else err (handler_error (or_rpc_error (from_utf8 resp.bytes)))

abbrev pub settled :
    (List ℕ → Option String) → PendingRequests → ℕ → ℕ → Status → Result (List ℕ) × PendingRequests
unfolding cancel answer_of
settled from_utf8 p id t (answered r) =
    (answer_of from_utf8 r, record p { slots = change receiver_dropped p.slots t })
settled from_utf8 p id t closed = (
  err (handler_error "response channel closed"),
  record p { slots = change receiver_dropped p.slots t },
)
settled from_utf8 p id t dropped = (err (handler_error "response channel closed"), p)
settled from_utf8 p id t pending =
    (err timeout, (cancel (record p { slots = change receiver_dropped p.slots t }) id).1)

abbrev pub awaited :
    (List ℕ → Option String)
    → PendingRequests
    → ℕ
    → ℕ
    → Option Slot
    → Result (List ℕ) × PendingRequests
unfolding settled
awaited from_utf8 p id t none = (err (handler_error "response channel closed"), p)
awaited from_utf8 p id t (some s) = settled from_utf8 p id t s.status

-- The second half, when the channel has an answer or is closed, or else when the time is over.
unfoldable pub end :
    (List ℕ → Option String) → PendingRequests → ℕ → ℕ → Result (List ℕ) × PendingRequests
unfolding awaited
end from_utf8 p id t = awaited from_utf8 p id t (slot_at p.slots t)
