-- ===== src/Node/Delivery.antt =====
-- What one node reads of what the other wrote.
use mlink.Prelude.{
  ℕ, ◌%◌, ◌^◌, ◌<◌, ◌==◌, ◌≡◌, refl, sym, ap, ◌∙◌, arith, String, List, [], Bool, true, false, ◌&&◌,
  Option, none, some, length, lookup, Bool-cases, inl, inr,
}
use mathlib.Core.List.{append-nil}
use native.Mathlib.Nat.{mod-eq_of_lt}
use mlink.Connection.{shared}
use mlink.Protocol.Errors.{Result, ok, err, ◌>>=◌, >>=-eq-ok}
use mlink.Protocol.Frame.{decode_frame}
use mlink.Protocol.Types.{MessageType, Frame, decode_flags}
use mlink.Session.State.{Env}
use mlink.Session.Send.{
  build, frame_of, encrypt, encrypt_body, compress_body, should_compress, seq_nonce,
}
use mlink.Session.Send.Body.{Carries, is_some, build-Carries}
use mlink.Node.{
  Node, PeerState, Opening, key_for, legacy_bytes, written, sent_with, send_legacy, decrypt,
  decrypted, decompressed, unpacked, read_message, recv_over, recv_once,
}

-- The node builds the frame that a session builds, for a number of 16 bits.
pub legacy_bytes-build :
    (env : Env) (key : Option (List ℕ)) (seq : ℕ) (t : MessageType) (payload : List ℕ)
    → seq < 2 ^ 16
    → legacy_bytes env key seq t payload ≡ build env seq t payload key true
unfolding legacy_bytes build
legacy_bytes-build env none seq t payload h = rw (mod-eq_of_lt h) refl
legacy_bytes-build env (some k) seq t payload h = rw (mod-eq_of_lt h) refl

-- What was compressed is decompressed, and what was sealed is opened.
pub record Reads (env : Env) (o : Opening) : Type 0 where
  pub inflates : (b z : List ℕ) → env.zstd b ≡ ok z → o.unzstd z ≡ ok b
  pub opens : (k n b c : List ℕ) → env.seal k n b ≡ ok c → o.open_sealed k n c ≡ ok b

written-eq :
    (peer : String) (write : List ℕ → Result (Unit {0})) (r : Result (List ℕ)) (conn : Option ℕ)
    (bytes : List ℕ)
    → (written peer write r conn).0 ≡ some bytes
    → r ≡ ok bytes
written-eq peer write (err e) conn bytes h = cc
written-eq peer write (ok b) none bytes h = cc
written-eq peer write (ok b) (some conn) bytes h = ground (arith, h)

module _ (env : Env) (o : Opening) (r : Reads env o) where
  decrypt-encrypt :
      (k b c : List ℕ) (seq : ℕ) → encrypt env b k seq ≡ ok c → decrypt o c k seq ≡ ok b
  unfolding encrypt decrypt
  decrypt-encrypt k b c seq h = elim (Bool-cases (length k == 32)) [
    | inl good ↦ rw good (r.opens k (seq_nonce seq) b c (rw good at h))
    | inr bad ↦ absurd (ground (arith, bad, h))
  ]

  decrypted-eq :
      (on : Bool) (key : Option (List ℕ)) (st : PeerState) (peer : String) (seq : ℕ)
      (t : MessageType) (b1 b2 : List ℕ) (c e : Bool)
      → st.aes_key ≡ key
      → encrypt_body env (key_for on key) seq b1 ≡ ok (b2, is_some (key_for on key))
      → decrypted o peer (frame_of seq t b2 c e) (is_some (key_for on key) && on) (some st) ≡ ok b1
  decrypted-eq false key st peer seq t b1 b2 c e k h = ground (arith, h)
  decrypted-eq true none st peer seq t b1 b2 c e k h = ground (arith, h)
  decrypted-eq true (some key) st peer seq t b1 b2 c e k h =
      let (z, s, q) = >>=-eq-ok (encrypt env b1 key (seq % 2 ^ 16)) _ h in
      let same : z ≡ b2 = ground (arith, q) in
      rw k (decrypt-encrypt key b1 b2 (seq % 2 ^ 16) (rw same at s))

  decompressed-eq :
      (payload b1 : List ℕ)
      → compress_body env true payload ≡ ok (b1, should_compress payload)
      → decompressed o (should_compress payload) b1 ≡ ok payload
  decompressed-eq payload b1 h = elim (Bool-cases (should_compress payload)) [
    | inl long ↦
        let (z, s, q) = >>=-eq-ok (env.zstd payload) _ (rw long at h) in
        let same : z ≡ b1 = ground (arith, q) in rw long (r.inflates payload b1 (rw same at s))
    | inr short ↦ rw short (ground (arith, h, short))
  ]

module _ (env : Env) (o : Opening) (r : Reads env o) (write : List ℕ → Result (Unit {0}))
    (a b : Node) (to from : String) (now : ℕ) (sa sb : PeerState) (conn : ℕ) where
  built :
      (t : MessageType) (payload bytes : List ℕ)
      → lookup to a.peer_states ≡ some sa
      → sa.seq < 2 ^ 16
      → (send_legacy env write a to t payload).0.0 ≡ some bytes
      → build env sa.seq t payload (key_for a.encrypt_on sa.aes_key) true ≡ ok bytes
  unfolding send_legacy
  built t payload bytes e k h =
      sym (legacy_bytes-build env (key_for a.encrypt_on sa.aes_key) sa.seq t payload k)
      ∙ written-eq to write _ (shared a.connections to) bytes
          (sym (ap (λ s. (sent_with env write a to t payload s).0.0) e) ∙ h)

  read-Carries :
      (t : MessageType) (payload b1 b2 bytes : List ℕ)
      → lookup from b.peer_states ≡ some sb
      → a.encrypt_on ≡ b.encrypt_on
      → sb.aes_key ≡ sa.aes_key
      → compress_body env true payload ≡ ok (b1, should_compress payload)
      → encrypt_body env (key_for a.encrypt_on sa.aes_key) sa.seq b1
        ≡ ok (b2, is_some (key_for a.encrypt_on sa.aes_key))
      → Carries sa.seq t
          (should_compress payload)
          (is_some (key_for a.encrypt_on sa.aes_key))
          b2
          bytes
      → read_message o b from (ok bytes) ≡ ok (t, payload)
  unfolding read_message
  read-Carries t payload b1 b2 bytes e on key e1 e2 c =
      let sealed = is_some (key_for a.encrypt_on sa.aes_key) in
      let frame : Frame = frame_of sa.seq t b2 (should_compress payload) sealed in
      let decoded : decode_frame bytes ≡ ok frame =
        ap (λ bs. decode_frame bs) (sym (append-nil bytes)) ∙ Carries.decodes c [] in
      ap (λ d. d >>= λ fr. unpacked o b from fr (decode_flags fr.flags)) decoded
      ∙ ap (λ fl. unpacked o b from frame fl) (Carries.flags_eq c)
      ∙ ap
          (λ s. decrypted o from frame (sealed && b.encrypt_on) s >>= λ body.
            (decompressed o (should_compress payload) body >>= λ p. ok (t, p)))
          e
      ∙ ap
          (λ on'. decrypted o from frame (sealed && on') (some sb) >>= λ body.
            (decompressed o (should_compress payload) body >>= λ p. ok (t, p)))
          (sym on)
      ∙ ap (λ d. d >>= λ body. (decompressed o (should_compress payload) body >>= λ p. ok (t, p)))
          (decrypted-eq env o r a.encrypt_on sa.aes_key sb from sa.seq t b1 b2
            (should_compress payload) sealed key e2)
      ∙ ap (λ d. d >>= λ p. ok (t, p)) (decompressed-eq env o r payload b1 e1)

  -- What a node writes to the connection of a peer, the peer reads as the same message: the type and
  -- the payload come back, whether the payload was long enough to be compressed or not, and whether
  -- both encrypt with the same key or not. It holds for a sender with a number of 16 bits, a receiver
  -- that has a connection and a state for the sender, the same setting of `encrypt` and the same key on
  -- both sides, and when decompression and opening undo compression and sealing.
  pub recv_once-send_legacy :
      (t : MessageType) (payload bytes : List ℕ)
      → lookup to a.peer_states ≡ some sa
      → lookup from b.peer_states ≡ some sb
      → shared b.connections from ≡ some conn
      → a.encrypt_on ≡ b.encrypt_on
      → sb.aes_key ≡ sa.aes_key
      → sa.seq < 2 ^ 16
      → (send_legacy env write a to t payload).0.0 ≡ some bytes
      → (recv_once o now b from (ok bytes)).0 ≡ ok (t, payload)
  unfolding recv_once
  recv_once-send_legacy t payload bytes ea eb ec on key k h =
      let (b1, b2, e1, e2, c) =
        build-Carries env sa.seq t payload (key_for a.encrypt_on sa.aes_key) true bytes
          (built t payload bytes ea k h) in
      ap (λ x. (recv_over o now b from (ok bytes) x).0) ec
      ∙ read-Carries t payload b1 b2 bytes eb on key e1 e2 c
