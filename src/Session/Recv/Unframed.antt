-- ===== src/Session/Recv/Unframed.antt =====
-- What a reader makes of the bytes that `Session::send` of crates/mlink-core/src/core/session/io.rs
-- writes: the sender puts no session number before the payload.
use mlink.Prelude.{
  ℕ, ◌≡◌, sym, List, [], length, take, drop, from_be_bytes, true, false, Option, none, Bool-cases,
  inl, inr, ltb, if◌then◌else◌, ap, ◌∙◌,
}
use mathlib.Core.List.{append-nil}
use mlink.Protocol.Errors.{ok}
use mlink.Protocol.Types.{MessageType}
use mlink.Protocol.Frame.{decode_frame}
use mlink.Protocol.Seq.{observe}
use mlink.Session.State.{Session, Env}
use mlink.Session.Send.{build, frame_of}
use mlink.Session.Send.Body.{Carries, plain-Carries}
use mlink.Session.Recv.{
  handle_bytes, consume_message, ReadOutcome, continue, of_message, after_observe,
}
use mlink.Session.Recv.Frames.{outcome_of, after_observe-outcome}

module _ (env : Env) (r : Session) (bytes payload : List ℕ) (seq : ℕ) where
  read_carried :
      Carries seq MessageType.message false false payload bytes
      → handle_bytes env r bytes
        ≡ of_message (consume_message env r (frame_of seq MessageType.message payload false false))
  unfolding handle_bytes
  read_carried c =
      let q : decode_frame bytes ≡ ok (frame_of seq MessageType.message payload false false) =
        ap decode_frame (sym (append-nil bytes)) ∙ c.decodes [] in
      rw (q, c.flags_eq)

  consume_short :
      ltb (length payload) 4 ≡ true
      → consume_message env r (frame_of seq MessageType.message payload false false) ≡ (none, r)
  unfolding consume_message
  consume_short h = rw h

  consume_long :
      ltb (length payload) 4 ≡ false
      → consume_message env r (frame_of seq MessageType.message payload false false)
        ≡ after_observe env
            (record r { dedup = (observe r.dedup (from_be_bytes (take 4 payload))).1 })
            (from_be_bytes (take 4 payload))
            (drop 4 payload)
            (observe r.dedup (from_be_bytes (take 4 payload))).0
  unfolding consume_message
  consume_long h = rw h

-- A reader never sees the number of a message that `send` wrote without key and compression: it
-- drops the message if the payload is shorter than four bytes, and else takes the first four bytes of
-- the payload for the number and the rest for the message.
pub handle_bytes-build :
    (sender env : Env) (seq : ℕ) (payload bytes : List ℕ) (r : Session)
    → build sender seq MessageType.message payload none false ≡ ok bytes
    → (handle_bytes env r bytes).0 ≡ (
        if ltb (length payload) 4
        then continue
        else outcome_of
            (from_be_bytes (take 4 payload))
            (drop 4 payload)
            (observe r.dedup (from_be_bytes (take 4 payload))).0)
handle_bytes-build sender env seq payload bytes r h =
    let number = from_be_bytes (take 4 payload) in
    ap (λ (x : ReadOutcome × Session). x.0)
      (read_carried env r bytes payload seq
        (plain-Carries sender seq MessageType.message payload bytes h))
    ∙ elim (Bool-cases (ltb (length payload) 4)) [
      | inl short ↦ rw short (
          ap (λ (x : Option (ℕ × List ℕ) × Session). (of_message x).0)
            (consume_short env r bytes payload seq short))
      | inr long ↦ rw long (
          ap (λ (x : Option (ℕ × List ℕ) × Session). (of_message x).0)
            (consume_long env r bytes payload seq long)
          ∙ (after_observe-outcome env (record r { dedup = (observe r.dedup number).1 }) number
              (drop 4 payload) (observe r.dedup number).0).0)
    ]
