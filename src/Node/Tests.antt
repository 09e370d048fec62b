-- ===== src/Node/Tests.antt =====
-- Two nodes, one connection: crates/mlink-core/src/core/node/io.rs.
use mlink.Prelude.{ℕ, ◌≡◌, refl, ap, sym, arith, List, [], ◌∷◌, true, false, lookup, some}
use mlink.Connection.{new_connections, shared}
use mlink.Protocol.Errors.{Result, ok, err, ◌>>=◌, timeout, peer_gone}
use mlink.Protocol.Types.{message, encode_flags}
use mlink.Protocol.Frame.{encode_frame}
use mlink.Session.Send.{should_compress, encrypt, seq_nonce}
use mlink.Session.State.{Env}
use mlink.Node.{
  Node, PeerState, Opening, new_peer_state, next_seq, legacy_bytes, send_legacy, recv_once,
  check_heartbeat,
}
use mlink.Node.Delivery.{Reads, recv_once-send_legacy}

-- Compression and sealing that put one byte in front.
abbrev env : Env
env = record {
  outcome = λ n id b. ok tt;
  clock = λ n. 0;
  zstd = λ b. ok (1 ∷ b);
  seal = λ k n b. ok (2 ∷ b);
}

abbrev without_first : List ℕ → Result (List ℕ)
without_first [] = err timeout
without_first (x ∷ xs) = ok xs

abbrev opening : Opening
opening = record { unzstd = without_first; open_sealed = λ k n b. without_first b }

opening-Reads : Reads env opening
opening-Reads = record {
  inflates = λ b z h. ap (λ r. r >>= without_first) (sym h);
  opens = λ k n b c h. ap (λ r. r >>= without_first) (sym h);
}

abbrev key : List ℕ
key =
    0 ∷ 1 ∷ 2 ∷ 3 ∷ 4 ∷ 5 ∷ 6 ∷ 7 ∷ 8 ∷ 9 ∷ 10 ∷ 11 ∷ 12 ∷ 13 ∷ 14 ∷ 15 ∷ 16 ∷ 17 ∷ 18 ∷ 19 ∷ 20
    ∷ 21 ∷ 22 ∷ 23 ∷ 24 ∷ 25 ∷ 26 ∷ 27 ∷ 28 ∷ 29 ∷ 30 ∷ 31 ∷ []

abbrev peer : PeerState
peer = record (new_peer_state 0) { seq = 65535; aes_key = some key }

abbrev node : Node
node = record {
  encrypt_on = true;
  peer_states = ("other", peer) ∷ [];
  connections = record new_connections { conns = ("other", 4) ∷ [] };
}

abbrev sent : List ℕ
sent = 77 ∷ 76 ∷ 1 ∷ encode_flags false true message ∷ 255 ∷ 255 ∷ 0 ∷ 2 ∷ 2 ∷ 3 ∷ []

wrote : (send_legacy env (λ b. ok tt) node "other" message (3 ∷ [])).0.0 ≡ some sent
unfolding send_legacy shared legacy_bytes should_compress encrypt seq_nonce encode_frame
wrote = refl

connected_to_other : shared node.connections "other" ≡ some 4
unfolding shared
connected_to_other = refl

-- The number of the frame wraps.
number_wraps :
    lookup "other" (send_legacy env (λ b. ok tt) node "other" message (3 ∷ [])).1.peer_states
    ≡ some (record peer { seq = 0 })
unfolding send_legacy next_seq
number_wraps = refl

recv_once-send_legacy_example :
    (recv_once opening 9 node "other" (ok sent)).0 ≡ ok (message, 3 ∷ [])
recv_once-send_legacy_example =
    recv_once-send_legacy env opening opening-Reads (λ b. ok tt) node node "other" "other" 9 peer
      peer 4 message (3 ∷ []) sent refl refl connected_to_other refl refl (omega arith) wrote

stranger : check_heartbeat node "nobody" 5 ≡ err (peer_gone "nobody")
unfolding check_heartbeat
stranger = refl
