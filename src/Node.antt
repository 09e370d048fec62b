-- ===== src/Node.antt =====
-- crates/mlink-core/src/core/node/io.rs and types.rs: the frames of a peer that has one connection.
-- What the connection says to a write or a read comes in, and so do the clock, zstd and AES-GCM.
pub mod Delivery
mod Tests
use mlink.Prelude.{
  ℕ, ◌+◌, ◌-◌, ◌%◌, ◌^◌, String, List, Bool, true, false, ◌&&◌, Option, none, some, if◌then◌else◌,
  ltb, leb, ◌==◌, length, lookup, insert,
}
use mlink.Connection.{ConnectionManager, shared}
use mlink.Protocol.Errors.{
  Result, ok, err, ◌>>=◌, peer_gone, payload_too_large, security_error, aes_key_length,
}
use mlink.Protocol.Frame.{encode_frame, decode_frame}
use mlink.Protocol.Types.{
  MessageType, heartbeat, Frame, encode_flags, decode_flags, magic_number, protocol_version,
}
use mlink.Reconnect.{ReconnectPolicy, new_policy}
use mlink.Session.Send.{should_compress, encrypt, seq_nonce}
use mlink.Session.State.{Env}

pub data NodeState : Type 0 where
  idle discovering discovered connecting connected streaming disconnected reconnecting : NodeState

pub record PeerState : Type 0 where
  pub state : NodeState
  pub reconnect_policy : ReconnectPolicy
  pub seq : ℕ
  pub last_heartbeat : Option ℕ
  pub aes_key : Option (List ℕ)

unfoldable pub new_peer_state : ℕ → PeerState
new_peer_state now = record {
  state = connecting;
  reconnect_policy = new_policy now;
  seq = 0;
  last_heartbeat = none;
  aes_key = none;
}

unfoldable pub next_seq : PeerState → ℕ × PeerState
next_seq st = (st.seq, record st { seq = (st.seq + 1) % 2 ^ 16 })

-- What these functions use of a node: the configuration's `encrypt`, the states by the peer, and the
-- connections.
pub record Node : Type 0 where
  pub encrypt_on : Bool
  pub peer_states : List (String × PeerState)
  pub connections : ConnectionManager

abbrev pub with_state : Node → String → PeerState → Node
with_state n peer st = record n { peer_states = insert peer st n.peer_states }

abbrev pub compressed : Env → List ℕ → Result (List ℕ × Bool)
compressed env body =
    if should_compress body then (env.zstd body >>= λ b. ok (b, true)) else ok (body, false)

abbrev pub key_for : Bool → Option (List ℕ) → Option (List ℕ)
key_for true key = key
key_for false key = none

abbrev pub encrypted : Env → Option (List ℕ) → ℕ → List ℕ → Result (List ℕ × Bool)
encrypted env none seq body = ok (body, false)
encrypted env (some key) seq body = encrypt env body key seq >>= λ b. ok (b, true)

abbrev pub legacy_frame : ℕ → MessageType → List ℕ → Bool → Bool → Frame
legacy_frame seq t body c e = record {
  magic = magic_number;
  version = protocol_version;
  flags = encode_flags c e t;
  seq = seq;
  length = length body;
  payload = body;
}

unfoldable pub legacy_bytes : Env → Option (List ℕ) → ℕ → MessageType → List ℕ → Result (List ℕ)
legacy_bytes env key seq t payload = do
  (b1, c) ← compressed env payload
  (b2, e) ← encrypted env key seq b1
  if ltb (2 ^ 16 - 1) (length b2)
      then err (payload_too_large (length b2) (2 ^ 16 - 1))
      else ok (encode_frame (legacy_frame seq t b2 c e))

-- The bytes that were given to the connection, if any, and the answer.
abbrev pub Sending : Type 0
Sending = Option (List ℕ) × Result (Unit {0})

abbrev pub written : String → (List ℕ → Result (Unit {0})) → Result (List ℕ) → Option ℕ → Sending
written peer write (err e) conn = (none, err e)
written peer write (ok bytes) none = (none, err (peer_gone peer))
written peer write (ok bytes) (some conn) = (some bytes, write bytes)

abbrev pub sent_with :
    Env
    → (List ℕ → Result (Unit {0}))
    → Node
    → String
    → MessageType
    → List ℕ
    → Option PeerState
    → Sending × Node
sent_with env write n peer t payload none = ((none, err (peer_gone peer)), n)
sent_with env write n peer t payload (some st) = (
  written peer write (legacy_bytes env (key_for n.encrypt_on st.aes_key) st.seq t payload)
      (shared n.connections peer),
  with_state n peer (next_seq st).1,
)

-- The number is used up also when the frame cannot be built.
unfoldable pub send_legacy :
    Env → (List ℕ → Result (Unit {0})) → Node → String → MessageType → List ℕ → Sending × Node
send_legacy env write n peer t payload =
    sent_with env write n peer t payload (lookup peer n.peer_states)

-- The other directions of zstd and AES-GCM.
pub record Opening : Type 0 where
  pub unzstd : List ℕ → Result (List ℕ)
  pub open_sealed : List ℕ → List ℕ → List ℕ → Result (List ℕ)

unfoldable pub decrypt : Opening → List ℕ → List ℕ → ℕ → Result (List ℕ)
decrypt o body key seq =
    if length key == 32
    then o.open_sealed key (seq_nonce seq) body
    else err (security_error (aes_key_length (length key)))

abbrev pub opened_with : Opening → List ℕ → ℕ → Option (List ℕ) → Result (List ℕ)
opened_with o body seq none = ok body
opened_with o body seq (some key) = decrypt o body key seq

abbrev pub opened_by : Opening → String → List ℕ → ℕ → Option PeerState → Result (List ℕ)
opened_by o peer body seq none = err (peer_gone peer)
opened_by o peer body seq (some st) = opened_with o body seq st.aes_key

abbrev pub decrypted : Opening → String → Frame → Bool → Option PeerState → Result (List ℕ)
decrypted o peer frame on st =
    if on then opened_by o peer frame.payload frame.seq st else ok frame.payload

abbrev pub decompressed : Opening → Bool → List ℕ → Result (List ℕ)
decompressed o true body = o.unzstd body
decompressed o false body = ok body

abbrev pub unpacked :
    Opening → Node → String → Frame → Bool × Bool × MessageType → Result (MessageType × List ℕ)
unpacked o n peer frame (c, e, t) =
    decrypted o peer frame (e && n.encrypt_on) (lookup peer n.peer_states) >>= λ body.
    (decompressed o c body >>= λ payload. ok (t, payload))

unfoldable pub read_message :
    Opening → Node → String → Result (List ℕ) → Result (MessageType × List ℕ)
read_message o n peer answer = answer >>= λ bytes.
    (decode_frame bytes >>= λ frame. unpacked o n peer frame (decode_flags frame.flags))

abbrev pub beat : ℕ → Node → String → Option PeerState → Node
beat now n peer none = n
beat now n peer (some st) = with_state n peer (record st { last_heartbeat = some now })

abbrev pub noted : ℕ → Node → String → Result (MessageType × List ℕ) → Node
noted now n peer (ok (heartbeat, payload)) = beat now n peer (lookup peer n.peer_states)
noted now n peer other = n

abbrev pub recv_over :
    Opening → ℕ → Node → String → Result (List ℕ) → Option ℕ → Result (MessageType × List ℕ) × Node
recv_over o now n peer answer none = (err (peer_gone peer), n)
recv_over o now n peer answer (some conn) =
    (read_message o n peer answer, noted now n peer (read_message o n peer answer))

unfoldable pub recv_once :
    Opening → ℕ → Node → String → Result (List ℕ) → Result (MessageType × List ℕ) × Node
recv_once o now n peer answer = recv_over o now n peer answer (shared n.connections peer)

-- `recv_raw` opens what is sealed by the flag alone, and hands out the frame too.
abbrev pub unpacked_raw :
    Opening → Node → String → Frame → Bool × Bool × MessageType → Result (Frame × List ℕ)
unpacked_raw o n peer frame (c, e, t) =
    decrypted o peer frame e (lookup peer n.peer_states) >>= λ body.
    (decompressed o c body >>= λ payload. ok (frame, payload))

abbrev pub read_frame : Opening → Node → String → Result (List ℕ) → Result (Frame × List ℕ)
read_frame o n peer answer = answer >>= λ bytes.
    (decode_frame bytes >>= λ frame. unpacked_raw o n peer frame (decode_flags frame.flags))

abbrev pub beat_on : ℕ → Node → String → MessageType → Node
beat_on now n peer heartbeat = beat now n peer (lookup peer n.peer_states)
beat_on now n peer other = n

abbrev pub noted_frame : ℕ → Node → String → Result (Frame × List ℕ) → Node
noted_frame now n peer (err e) = n
noted_frame now n peer (ok (frame, payload)) = beat_on now n peer ((decode_flags frame.flags).2)

abbrev pub frame_over :
    Opening → ℕ → Node → String → Result (List ℕ) → Option ℕ → Result (Frame × List ℕ) × Node
frame_over o now n peer answer none = (err (peer_gone peer), n)
frame_over o now n peer answer (some conn) =
    (read_frame o n peer answer, noted_frame now n peer (read_frame o n peer answer))

unfoldable pub recv_raw :
    Opening → ℕ → Node → String → Result (List ℕ) → Result (Frame × List ℕ) × Node
recv_raw o now n peer answer = frame_over o now n peer answer (shared n.connections peer)

abbrev pub heartbeat_timeout_ms : ℕ
heartbeat_timeout_ms = 45000

abbrev pub alive : ℕ → Option ℕ → Bool
alive now none = true
alive now (some t) = ltb (now - t) heartbeat_timeout_ms

abbrev pub alive_in : ℕ → String → Option PeerState → Result Bool
alive_in now peer none = err (peer_gone peer)
alive_in now peer (some st) = ok (alive now st.last_heartbeat)

unfoldable pub check_heartbeat : Node → String → ℕ → Result Bool
check_heartbeat n peer now = alive_in now peer (lookup peer n.peer_states)
