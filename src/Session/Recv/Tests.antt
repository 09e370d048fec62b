-- ===== src/Session/Recv/Tests.antt =====
-- A reader with two links: crates/mlink-core/src/core/session/reader.rs.
use mlink.Prelude.{
  ℕ, ◌*◌, ◌%◌, ◌≡◌, refl, arith, String, List, [], ◌∷◌, map, take, drop, from_be_bytes, true, false,
  ltb, if◌then◌else◌, none, some, str_eq, eq_iff, Bool-cases, inl, inr, retain,
}
use mlink.Link.Samples.{wifi, radio}
use mlink.Protocol.Errors.{ok, err, io, timeout}
use mlink.Protocol.Types.{MessageType}
use mlink.Protocol.Frame.{encode_frame}
use mlink.Protocol.Seq.{observe, new_window, u32_mod}
use mlink.Protocol.Seq.Window.{contains, Log, judge, no_log}
use mlink.Protocol.Seq.Refines.{Refines, observe-Refines}
use mlink.Protocol.Seq.Stream.{NoRepeat, Refines-new}
use mlink.Protocol.Ack.{AckFrame}
use mlink.Protocol.Ack.Serial.{wrapped}
use mlink.Session.State.{Session, Env, PendingFrame, new_session}
use mlink.Session.Send.{build, frame_of, on_ack}
use mlink.Session.Recv.{
  recv, received, deadline, failed, handle_bytes, continue, own_ack, ReadEvent,
}
use mlink.Session.Recv.Coverage.{Ready, Covers}
use mlink.Session.Recv.Calls.{recv_each, recv_each-Covers}
use mlink.Session.Recv.Frames.{encode_message, outcome_of}
use mlink.Session.Recv.Delivery.{listen, arrival, message_of, listen_exactly_once}
use mlink.Session.Recv.OwnAck.{survives, on_ack-own_ack}
use mlink.Session.Recv.Dead.{has_other, failures, recv_waits}
use mlink.Session.Recv.Unframed.{handle_bytes-build}

abbrev session : Session
session = record (new_session "peer" []) {
  links = wifi ∷ radio ∷ [];
  active = some "tcp:1";
  dedup = new_window;
  ack_pending = record { count = 0; first_pending_at = none };
}

abbrev lone : Session
lone = record session { links = wifi ∷ [] }

abbrev env : Env
env = record {
  outcome = λ n id b. if str_eq id "tcp:1" then err (io "reset") else ok tt;
  clock = λ n. 100 * n;
  zstd = λ b. ok b;
  seal = λ k n b. ok b;
}

abbrev events : List ReadEvent
events = failed "tcp:1" timeout ∷ received "ble:1" (encode_message 7 (1 ∷ [])) ∷ deadline ∷ []

-- The same connections, but all writes succeed.
abbrev working : Env
working = record env { outcome = λ n id b. ok tt }

session-Ready : Ready session
session-Ready = record { count_lt = omega arith; active_in = refl }

abbrev calls : List (List ReadEvent)
calls =
    events
    ∷ (received "tcp:1" (encode_message 7 (1 ∷ [])) ∷ received "tcp:1" (encode_message 8 []) ∷ [])
    ∷ (received "ble:1" (encode_message 9 []) ∷ [])
    ∷ []

recv_each-Covers_example :
    Covers session (recv_each working session calls).0 (recv_each working session calls).1
recv_each-Covers_example = recv_each-Covers working (λ n id b. refl) session calls session-Ready

abbrev ack_five : AckFrame
ack_five = record { ack = 5; bitmap = 2 }

abbrev payload_of : ℕ → List ℕ
payload_of n = n ∷ []

abbrev arrived : List (String × ℕ)
arrived = ("ble:1", 8) ∷ ("tcp:1", 7) ∷ ("tcp:1", 8) ∷ []

listen_exactly_once_example :
    (got : List ℕ) × (listen env session [] (map (arrival payload_of) (("tcp:1", 6) ∷ arrived))
      ≡ map (message_of payload_of) got)
    × NoRepeat got
    × ((m : ℕ) → contains got m ≡ contains (map (λ x. x.1) (("tcp:1", 6) ∷ arrived)) m)
listen_exactly_once_example =
    listen_exactly_once payload_of (λ n. omega arith) env session 0 ("tcp:1", 6) arrived refl refl
      (ground arith) (ground arith)

abbrev heard : Session
heard = record session { dedup = (observe new_window (9 % u32_mod)).1 }

abbrev heard_log : Log
heard_log = (judge no_log 9).1

heard-Refines : Refines heard.dedup heard_log
heard-Refines = (observe-Refines new_window no_log 9 Refines-new (λ s. cc)).0

abbrev waiting : List (ℕ × PendingFrame)
waiting =
    (8, record { bytes = []; msg_type = MessageType.message })
    ∷ (11, record { bytes = []; msg_type = MessageType.message })
    ∷ []

abbrev sender : Session
sender = record session { unacked = record { buf = wrapped waiting } }

on_ack-own_ack_example :
    ((on_ack sender (own_ack heard)).unacked.buf
      ≡ wrapped (retain (λ e. survives heard_log e.0) waiting))
    × (survives heard_log 8 ≡ false)
unfolding judge
on_ack-own_ack_example =
    on_ack-own_ack heard heard_log heard-Refines refl sender waiting 8 refl (ground arith)
      (omega arith)

two_names : (id : String) → has_other id session.links ≡ true
two_names id = elim (Bool-cases (str_eq "tcp:1" id)) [
  | inl e ↦ rw (← (eq_iff "tcp:1" id).0 e) refl
  | inr e ↦ rw e refl
]

recv_waits_example :
    (recv env session (failures (("tcp:1", timeout) ∷ ("ble:1", timeout) ∷ []))).0 ≡ none
recv_waits_example = recv_waits env (("tcp:1", timeout) ∷ ("ble:1", timeout) ∷ []) session two_names

abbrev bytes : List ℕ
bytes = encode_frame (frame_of 7 MessageType.message (1 ∷ 2 ∷ []) false false)

build_here : build env 7 MessageType.message (1 ∷ 2 ∷ []) none false ≡ ok bytes
unfolding build
build_here = refl

handle_bytes-build_example : (handle_bytes env session bytes).0 ≡ (
    if ltb 2 4
    then continue
    else outcome_of
        (from_be_bytes (take 4 (1 ∷ 2 ∷ [])))
        (drop 4 (1 ∷ 2 ∷ []))
        (observe session.dedup (from_be_bytes (take 4 (1 ∷ 2 ∷ [])))).0)
handle_bytes-build_example = handle_bytes-build env env 7 (1 ∷ 2 ∷ []) bytes session build_here
