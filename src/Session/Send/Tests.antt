-- ===== src/Session/Send/Tests.antt =====
-- A session with two links of which one fails: crates/mlink-core/src/core/session.
use mlink.Prelude.{
  ℕ, ◌+◌, ◌%◌, ◌^◌, ◌≡◌, refl, inl, inr, String, List, [], ◌∷◌, ◌++◌, true, false, none, some,
  if◌then◌else◌, str_eq,
}
use mlink.Link.Samples.{wifi, radio}
use mlink.Link.{is_healthy}
use mlink.Protocol.Errors.{ok, err, io, security_error, aes_key_length}
use mlink.Protocol.Types.{MessageType}
use mlink.Protocol.Frame.{encode_frame}
use mlink.Session.State.{PendingFrame, link_by_id, Session, Env, new_session}
use mlink.Session.Send.{send, build, frame_of, encrypt}
use mlink.Session.Send.Outcomes.{Report, send-Report, send_unbuilt}
use mlink.Session.Send.Delivers.{GotOut, send_delivers}

abbrev session : Session
session = record (new_session "peer" []) {
  links = wifi ∷ radio ∷ [];
  active = some "tcp:1";
  send_seq = record { next = 7 };
  ack_pending = record { count = 0; first_pending_at = none };
}

-- Writes over the first link fail.
abbrev env : Env
env = record {
  outcome = λ n id b. if str_eq id "tcp:1" then err (io "reset") else ok tt;
  clock = λ n. n;
  zstd = λ b. ok b;
  seal = λ k n b. ok (b ++ (1 ∷ []));
}

abbrev payload : List ℕ
payload = 1 ∷ 2 ∷ []

abbrev bytes : List ℕ
bytes = encode_frame (frame_of 7 MessageType.message payload false false)

build_here : build env 7 MessageType.message payload none false ≡ ok bytes
unfolding build
build_here = refl

radio_healthy : (n : ℕ) → is_healthy radio (env.clock n) ≡ true
unfolding is_healthy
radio_healthy n = refl

send_delivers_example :
    GotOut session 7 bytes MessageType.message
      (send env session MessageType.message payload none false)
send_delivers_example =
    send_delivers env "tcp:1" radio (λ n id b h. rw h) radio_healthy refl refl session
      MessageType.message payload none false bytes build_here (inr (inl refl))

send-Report_example :
    Report session 7 bytes MessageType.message
      (send env session MessageType.message payload none false)
send-Report_example =
    send-Report env session MessageType.message payload none false bytes build_here

-- A cipher that needs a key of 32 bytes.
build_no_key :
    build env 7 MessageType.message payload (some []) false
    ≡ err (security_error (aes_key_length 0))
unfolding build encrypt
build_no_key = refl

send_without_key : send env session MessageType.message payload (some []) false ≡ (
  err (security_error (aes_key_length 0)),
  record session { send_seq = record { next = (7 + 1) % 2 ^ 32 } },
)
send_without_key =
    send_unbuilt env session MessageType.message payload (some []) false
      (security_error (aes_key_length 0)) build_no_key

abbrev asks : List (String × String)
asks = ("ble:1", "tcp:1") ∷ ("ble:1", "ipc:1") ∷ ("ble:1", "tcp:1") ∷ []

abbrev waiting : List (ℕ × PendingFrame)
waiting =
    (5, record { bytes = bytes; msg_type = MessageType.message })
    ∷ (2 ^ 31, record { bytes = []; msg_type = MessageType.message })
    ∷ []

abbrev with_waiting : Session
with_waiting = record session { unacked = record { buf = waiting } }

radio_found : link_by_id with_waiting "ble:1" ≡ some radio
unfolding link_by_id
radio_found = refl
