-- ===== src/Rpc/Calls.antt =====
-- A call from one end to the other, and what a call leaves in the table.
use mlink.Prelude.{
  ℕ, ◌+◌, ◌%◌, ◌^◌, ◌==◌, ◌≡◌, refl, ap, ◌∙◌, arith, ==_iff, String, List, ◌∷◌, true, some, length,
}
use mlink.Protocol.Errors.{Result, ok, err, handler_error}
use mlink.Rpc.{
  RpcRequest, RpcResponse, PendingRequests, begin, begun, waiter, without, pending_count, register,
  next_id,
}
use mlink.Rpc.Dispatch.{RpcCodec, text_of}

-- Encodings that can be read back.
pub record Faithful (codec : RpcCodec) : Type 0 where
  pub request_bytes : RpcRequest → List ℕ
  pub response_bytes : RpcResponse → List ℕ
  pub request_eq : (r : RpcRequest) → codec.encode_request r ≡ ok (request_bytes r)
  pub request_back : (r : RpcRequest) → codec.decode_request (request_bytes r) ≡ ok r
  pub response_eq : (r : RpcResponse) → codec.encode_response r ≡ ok (response_bytes r)
  pub response_back : (r : RpcResponse) → codec.decode_response (response_bytes r) ≡ ok r
  pub text_back : (s : String) → codec.from_utf8 (codec.bytes_of_text s) ≡ some s

-- What the caller gets of what the handler gave: every error comes as a text.
abbrev pub at_caller : RpcCodec → Result (List ℕ) → Result (List ℕ)
at_caller codec (ok out) = ok out
at_caller codec (err e) = err (handler_error (text_of codec e))

waiter_self : (id t : ℕ) (ws : List (ℕ × ℕ)) → waiter id ((id, t) ∷ ws) ≡ some t
waiter_self id t ws = let e : (id == id) ≡ true = (==_iff id id).1 refl in rw e refl

begun-keeps :
    (r : Result (Unit {0})) (id t : ℕ) (p : PendingRequests)
    → ((begun r id (t, p)).1.waiters ≡ p.waiters)
      × ((begun r id (t, p)).1.next_number ≡ p.next_number)
begun-keeps (ok x) id t p = (refl, refl)
begun-keeps (err e) id t p = (refl, refl)

-- A call takes the next number, and its channel stands in the table under that number, also when
-- the send fails and the call returns the error: that entry is not taken out again.
pub begin-waiter :
    (p : PendingRequests) (send : ℕ → Result (Unit {0}))
    → (waiter p.next_number (begin p send).1.waiters ≡ some (length p.slots))
      × ((begin p send).1.next_number ≡ (p.next_number + 1) % 2 ^ 16)
      × (pending_count (begin p send).1 ≡ length (without p.next_number p.waiters) + 1)
unfolding begin next_id register pending_count
begin-waiter p send =
    let id = p.next_number in
    let q : PendingRequests = record p { next_number = (id + 1) % 2 ^ 16 } in
    let kept = begun-keeps (send id) id (register q id).0 (register q id).1 in
    (
      ap (waiter id) kept.0 ∙ waiter_self id (length p.slots) (without id p.waiters),
      kept.1,
      ap (λ ws. length ws) kept.0 ∙ omega arith,
    )
