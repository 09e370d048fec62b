-- ===== src/Rpc/Tests.antt =====
-- Calls in flight: crates/mlink-core/src/api/rpc.rs.
use mlink.Prelude.{ℕ, ◌≡◌, refl, List, [], ◌∷◌, Option, none, some, String}
use mlink.Protocol.Errors.{ok, err, timeout}
use mlink.Rpc.{
  RpcRequest, RpcResponse, RpcRegistry, no_requests, answered, slot_at, register_handler, complete,
  end, begin,
}
use mlink.Rpc.Matching.{Event, begins, responds, ends, run, run_answers_match}

abbrev no_text : List ℕ → Option String
no_text bytes = none

abbrev response_of : ℕ → RpcResponse
response_of n = record { request_id = n; status = 0; bytes = 7 ∷ [] }

-- Two calls; the second is answered first, the first runs out of time, and its late answer is lost.
abbrev events : List Event
events =
    begins (λ n. ok tt)
    ∷ begins (λ n. ok tt)
    ∷ responds (response_of 1)
    ∷ ends 0 0
    ∷ responds (response_of 0)
    ∷ []

second_answered :
    slot_at (run no_text no_requests events).slots 1
    ≡ some (record { id = 1; status = answered (response_of 1) })
unfolding run complete end begin
second_answered = refl

run_answers_match_example : (response_of 1).request_id ≡ 1
run_answers_match_example = run_answers_match no_text events 1 1 (response_of 1) second_answered

abbrev registry : RpcRegistry
registry = register_handler (record { handlers = [] }) "reverse" (λ bytes. err timeout)

abbrev request : RpcRequest
request = record { request_id = 5; method = "reverse"; bytes = 1 ∷ 2 ∷ [] }
