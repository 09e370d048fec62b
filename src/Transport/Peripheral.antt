-- ===== src/Transport/Peripheral.antt =====
-- crates/mlink-core/src/transport/peripheral.rs: the macOS peripheral, as the table from centrals to
-- their channels, the callbacks that change it, and the steps of its start.
-- CoreBluetooth is not the repository's code: its callbacks are operations with their arguments, and
-- its answers come in. A channel is a place in `inboxes`, the messages sent over it and not yet read;
-- its one sender is the entry of the table, so it is open as long as an entry has it.
pub mod Startup
pub mod Routing
use mlink.Prelude.{
  ℕ, zero, suc, ◌+◌, ◌-◌, ◌==◌, String, List, [], ◌∷◌, ◌++◌, Bool, true, false, not, ◌&&◌, Option,
  none, some, if◌then◌else◌, leb, length, any, retain, str_eq, map, lookup, insert, delete,
}
use mlink.Protocol.Errors.{Result, ok, err, handler_error, peer_gone}
use mlink.Session.Manager.{bytes_eq}
use mlink.Transport.Peripheral.Startup.{PeripheralEvent, central_subscribed}

pub data WriteRouteDecision : Type 0 where
  deliver ignore : WriteRouteDecision

abbrev lower : ℕ → ℕ
lower c = if leb 65 c && leb c 90 then c + 32 else c

-- `eq_ignore_ascii_case`, on the bytes of the texts.
unfoldable pub uuid_matches : List ℕ → List ℕ → Bool
uuid_matches text expected = bytes_eq (map lower text) (map lower expected)

unfoldable pub classify_write : List ℕ → List ℕ → ℕ → WriteRouteDecision
unfolding uuid_matches
classify_write request_char_uuid tx_char_uuid payload_len =
    if not (uuid_matches request_char_uuid tx_char_uuid)
    then ignore
    else if payload_len == 0
    then ignore
    else deliver

pub record MacPeripheral : Type 0 where
  pub tx_char_uuid : List ℕ
  pub rx_char_uuid : List ℕ
  pub ctrl_events : List PeripheralEvent
  pub per_central_tx : List (String × ℕ)
  pub inboxes : List (List (List ℕ))
  pub subscribed : List String

unfoldable pub did_subscribe : MacPeripheral → String → List ℕ → MacPeripheral
unfolding uuid_matches
did_subscribe p central char_uuid =
    if not (uuid_matches char_uuid p.rx_char_uuid) then p else record p {
      subscribed = p.subscribed ++ (central ∷ []);
      ctrl_events = p.ctrl_events ++ (central_subscribed central ∷ []);
    }

unfoldable pub did_unsubscribe : MacPeripheral → String → List ℕ → MacPeripheral
unfolding uuid_matches
did_unsubscribe p central char_uuid =
    if not (uuid_matches char_uuid p.rx_char_uuid) then p else record p {
      subscribed = retain (λ c. not (str_eq c central)) p.subscribed;
      per_central_tx = delete central p.per_central_tx;
    }

-- One entry of a batch of writes.
pub record WriteRequest : Type 0 where
  pub char_uuid : List ℕ
  pub value : Option (List ℕ)
  pub central : String

abbrev pub push : List (List (List ℕ)) → ℕ → List ℕ → List (List (List ℕ))
push [] i bytes = []
push (b ∷ bs) zero bytes = (b ++ (bytes ∷ [])) ∷ bs
push (b ∷ bs) (suc i) bytes = b ∷ push bs i bytes

abbrev pub sent_to : MacPeripheral → List ℕ → Option ℕ → MacPeripheral
sent_to p bytes none = p
sent_to p bytes (some i) = record p { inboxes = push p.inboxes i bytes }

abbrev pub routed : MacPeripheral → List ℕ → String → WriteRouteDecision → MacPeripheral
routed p bytes central ignore = p
routed p bytes central deliver = sent_to p bytes (lookup central p.per_central_tx)

abbrev pub with_value : MacPeripheral → WriteRequest → Option (List ℕ) → MacPeripheral
unfolding classify_write
with_value p req none = p
with_value p req (some bytes) =
    routed p bytes req.central (classify_write req.char_uuid p.tx_char_uuid (length bytes))

-- The batch, and whether its first entry is answered, for all of them.
unfoldable pub did_receive_writes : MacPeripheral → List WriteRequest → MacPeripheral
unfolding with_value
did_receive_writes p [] = p
did_receive_writes p (req ∷ reqs) = did_receive_writes (with_value p req req.value) reqs

abbrev pub answers_first : List WriteRequest → Bool
answers_first [] = false
answers_first (req ∷ reqs) = true

pub data Accepted : Type 0 where
  central_came : String → ℕ → Accepted
  none_yet : Accepted

abbrev pub opened : MacPeripheral → String → List PeripheralEvent → Accepted × MacPeripheral
opened p central rest = (
  central_came central (length p.inboxes),
  record p {
    ctrl_events = rest;
    per_central_tx = insert central (length p.inboxes) p.per_central_tx;
    inboxes = p.inboxes ++ ([] ∷ []);
  },
)

-- The events before a subscription are lost. An entry under the same name is replaced, which closes the
-- channel of that name.
abbrev pub wait_over : MacPeripheral → List PeripheralEvent → Accepted × MacPeripheral
wait_over p [] = (none_yet, record p { ctrl_events = [] })
wait_over p (central_subscribed central ∷ rest) = opened p central rest
wait_over p (e ∷ rest) = wait_over p rest

unfoldable pub wait_for_central : MacPeripheral → Accepted × MacPeripheral
wait_for_central p = wait_over p p.ctrl_events

-- What CoreBluetooth says of its queue, asked only when there is a subscriber.
unfoldable pub notify_subscribed : MacPeripheral → Bool → Bool
notify_subscribed p room = elim p.subscribed [ [] ↦ true | c ∷ cs ↦ room ]

-- One attempt of `write`: the answer of the queue, and whether it drained before the time was over.
pub record Attempt : Type 0 where
  pub room : Bool
  pub drained : Bool

-- `none` while the attempts go on.
unfoldable pub write : MacPeripheral → List Attempt → Option (Result (Unit {0}))
unfolding notify_subscribed
write p [] = none
write p (a ∷ attempts) =
    let again = write p attempts in
    if notify_subscribed p a.room
    then some (ok tt)
    else if a.drained
    then again
    else some (err (handler_error "peripheral updateValue queue stayed full for >2s"))

abbrev pub is_open : MacPeripheral → ℕ → Bool
is_open p i = any (λ e. e.1 == i) p.per_central_tx

abbrev pub inbox : List (List (List ℕ)) → ℕ → List (List ℕ)
inbox [] i = []
inbox (b ∷ bs) zero = b
inbox (b ∷ bs) (suc i) = inbox bs i

abbrev pub drop_first : List (List (List ℕ)) → ℕ → List (List (List ℕ))
drop_first [] i = []
drop_first ([] ∷ bs) zero = [] ∷ bs
drop_first ((m ∷ ms) ∷ bs) zero = ms ∷ bs
drop_first (b ∷ bs) (suc i) = b ∷ drop_first bs i

abbrev pub received :
    MacPeripheral → String → ℕ → List (List ℕ) → Option (Result (List ℕ)) × MacPeripheral
received p peer_id i [] = (if is_open p i then none else some (err (peer_gone peer_id)), p)
received p peer_id i (m ∷ ms) = (some (ok m), record p { inboxes = drop_first p.inboxes i })

-- `read` of the connection with channel `i`; `none` while it waits.
unfoldable pub read : MacPeripheral → String → ℕ → Option (Result (List ℕ)) × MacPeripheral
read p peer_id i = received p peer_id i (inbox p.inboxes i)
