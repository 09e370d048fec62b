-- ===== src/Transport/Peripheral/Startup.antt =====
-- crates/mlink-core/src/transport/peripheral.rs: the three waits of the start, each over the events of
-- the manager until the one it waits for, or until its time is over.
pub mod Ordered
use mlink.Prelude.{
  ℕ, String, List, [], ◌∷◌, ◌++◌, Bool, true, false, Option, none, some, if◌then◌else◌,
}
use mlink.Protocol.Errors.{Result, ok, err, handler_error}
use Prim.Native.String.{◌++◌ as append}

pub data ManagerState : Type 0 where
  unknown resetting unsupported unauthorized powered_off powered_on : ManagerState

pub data Outcome : Type 0 where
  done : Outcome
  failed : String → Outcome

pub data PeripheralEvent : Type 0 where
  state_changed : ManagerState → PeripheralEvent
  service_added advertising_started : Outcome → PeripheralEvent
  central_subscribed : String → PeripheralEvent
  received_bytes : List ℕ → PeripheralEvent

-- What `timeout(remaining, rx.recv())` gives, in order.
pub data Waited : Type 0 where
  time_over channel_closed : Waited
  event : PeripheralEvent → Waited

abbrev unusable : String → Option (Result (Unit {0}))
unusable state =
    some (err (handler_error (append "CBPeripheralManager in non-usable state " state)))

-- `none`: the wait goes on.
abbrev pub powered_verdict : PeripheralEvent → Option (Result (Unit {0}))
powered_verdict (state_changed powered_on) = some (ok tt)
powered_verdict (state_changed unauthorized) = unusable "Unauthorized"
powered_verdict (state_changed unsupported) = unusable "Unsupported"
powered_verdict (state_changed powered_off) = unusable "PoweredOff"
powered_verdict e = none

abbrev pub added_verdict : PeripheralEvent → Option (Result (Unit {0}))
added_verdict (service_added done) = some (ok tt)
added_verdict (service_added (failed msg)) =
    some (err (handler_error (append "addService failed: " msg)))
added_verdict e = none

abbrev pub started_verdict : PeripheralEvent → Option (Result (Unit {0}))
started_verdict (advertising_started done) = some (ok tt)
started_verdict (advertising_started (failed msg)) =
    some (err (handler_error (append "startAdvertising failed: " msg)))
started_verdict e = none

abbrev pub Answer : Type 0
Answer = Option (Result (Unit {0})) × List Waited

abbrev pub or_wait : Option (Result (Unit {0})) → List Waited → Answer → Answer
or_wait none rest again = again
or_wait (some r) rest again = (some r, rest)

-- The loop of each wait, with its test of an event and its two texts: the answer, if the wait has
-- ended, and what is left of the events.
unfoldable pub wait_until :
    (PeripheralEvent → Option (Result (Unit {0}))) → String → String → List Waited → Answer
wait_until verdict late closed [] = (none, [])
wait_until verdict late closed (time_over ∷ rest) = (some (err (handler_error late)), rest)
wait_until verdict late closed (channel_closed ∷ rest) = (some (err (handler_error closed)), rest)
wait_until verdict late closed (event e ∷ rest) =
    or_wait (verdict e) rest (wait_until verdict late closed rest)

unfoldable pub wait_for_powered_on : List Waited → Answer
wait_for_powered_on events =
    wait_until powered_verdict "CBPeripheralManager never reached PoweredOn within 10s"
      "peripheral event channel closed before PoweredOn" events

unfoldable pub wait_for_service_added : List Waited → Answer
wait_for_service_added events =
    wait_until added_verdict "didAddService callback never fired within 10s"
      "peripheral event channel closed before didAddService" events

unfoldable pub wait_for_advertising_started : List Waited → Answer
wait_for_advertising_started events =
    wait_until started_verdict "didStartAdvertising callback never fired within 10s"
      "peripheral event channel closed before didStartAdvertising" events

abbrev pub and_then : Answer → (List Waited → Answer) → Answer
and_then (some (ok x), rest) next = next rest
and_then (other, rest) next = (other, rest)

-- The order of the steps of `start`, by its waits.
unfoldable pub start : List Waited → Answer
unfolding wait_for_powered_on wait_for_service_added wait_for_advertising_started
start events =
    and_then (and_then (wait_for_powered_on events) wait_for_service_added)
      wait_for_advertising_started
