-- ===== src/Session/Recv/Frames.antt =====
-- What a session does with the bytes of a message, and with those of an acknowledgement.
use mlink.Prelude.{
  ℕ, ◌+◌, ◌^◌, ◌<◌, ◌≡◌, refl, sym, arith, List, [], ◌∷◌, ◌++◌, length, take, drop, map, false,
  Option, none, some, ltb, ap, ◌∙◌, String, to_be_bytes, from_be_bytes, from_be_bytes-to_be_bytes,
}
use mathlib.Core.List.{append-nil}
use mlink.Link.{Link, after_io}
use mlink.Protocol.Errors.{Result, ok, err}
use mlink.Protocol.Types.{
  Frame, MessageType, encode_flags, decode_flags, magic_number, protocol_version,
}
use mlink.Protocol.Types.Flags.{decode_flags-encode_flags}
use mlink.Protocol.Frame.{encode_frame, decode_frame}
use mlink.Protocol.Frame.RoundTrip.{IsWire, decode_frame-encode_frame_wire}
use mlink.Protocol.Seq.{Observation, observe}
use mlink.Protocol.Ack.{AckFrame, encode_ack, decode_ack}
use mlink.Protocol.Ack.Codec.{decode_ack-encode_ack}
use mlink.Session.State.{Session, Env, no_pending, link_send, now, update_link}
use mlink.Session.Send.{on_ack}
use mlink.Session.Recv.{
  add_pending, active_link, send_ack, after_ack, flush_ack_now, maybe_flush_ack, flush_if_reached,
  after_observe, consume_message, of_message, by_type, handle_bytes, encode_ack_frame, ack_frame,
  own_ack, ReadOutcome, msg, continue, no_links, session_seq_header,
}

-- The frame of a message that the reader expects: the session number, then the payload.
abbrev pub message_frame : ℕ → List ℕ → Frame
message_frame seq body = record {
  magic = magic_number;
  version = protocol_version;
  flags = encode_flags false false MessageType.message;
  seq = 0;
  length = length (to_be_bytes 4 seq ++ body);
  payload = to_be_bytes 4 seq ++ body;
}

unfoldable pub encode_message : ℕ → List ℕ → List ℕ
encode_message seq body = encode_frame (message_frame seq body)

abbrev pub names : List Link → List String
names ls = map (λ l. l.id) ls

pub names-update_link :
    (id : String) (f : Link → Link) (ls : List Link)
    → ((l : Link) → (f l).id ≡ l.id)
    → names (update_link id f ls) ≡ names ls
names-update_link id f [] h = refl
names-update_link id f (l ∷ ls) h = ground (arith, h l, names-update_link id f ls h)

id-after_io : (l : Link) (t : ℕ) (r : Result (Unit {0})) → (after_io l t r).id ≡ l.id
unfolding after_io
id-after_io l t (ok x) = refl
id-after_io l t (err e) = refl

-- What the delayed acknowledgements leave alone.
pub record SameRead (s t : Session) : Type 0 where
  pub dedup_eq : t.dedup ≡ s.dedup
  pub no_links_eq : no_links t.links ≡ no_links s.links
  pub unacked_eq : t.unacked ≡ s.unacked
  pub names_eq : names t.links ≡ names s.links
  pub peer_id_eq : t.peer_id ≡ s.peer_id

pub no_links-update_link :
    (id : String) (f : Link → Link) (ls : List Link) → no_links (update_link id f ls) ≡ no_links ls
no_links-update_link id f [] = refl
no_links-update_link id f (l ∷ ls) = ground arith

link_send-SameRead :
    (env : Env) (s : Session) (l : Link) (bytes : List ℕ) → SameRead s (link_send env s l bytes).1
unfolding link_send
link_send-SameRead env s l bytes = record {
  dedup_eq = refl;
  no_links_eq = no_links-update_link _ _ s.links;
  unacked_eq = refl;
  names_eq =
      names-update_link l.id _ s.links
        (λ k. id-after_io k (now env s) (env.outcome s.wire.calls l.id bytes));
  peer_id_eq = refl;
}

after_ack-SameRead :
    (env : Env) (r : Result (Unit {0})) (s t : Session)
    → SameRead s t
    → SameRead s (after_ack env r t).1
after_ack-SameRead env (ok x) s t h = h
after_ack-SameRead env (err e) s t h = ground arith

send_ack-SameRead : (env : Env) (s : Session) (o : Option Link) → SameRead s (send_ack env s o).1
send_ack-SameRead env s none = ground arith
send_ack-SameRead env s (some l) =
    let bytes = encode_ack_frame (own_ack s) in
    let (r, t) = link_send env s l bytes in
    after_ack-SameRead env r s t (link_send-SameRead env s l bytes)

flush_ack_now-SameRead : (env : Env) (s : Session) → SameRead s (flush_ack_now env s).1
unfolding flush_ack_now
flush_ack_now-SameRead env s =
    let s' : Session = record s { ack_pending = no_pending } in
    ground (arith, send_ack-SameRead env s' (active_link s'))

pub maybe_flush_ack-SameRead : (env : Env) (s : Session) → SameRead s (maybe_flush_ack env s)
unfolding maybe_flush_ack
maybe_flush_ack-SameRead env s = ground (arith, flush_ack_now-SameRead env s)

flush_if_reached-SameRead : (env : Env) (s : Session) → SameRead s (flush_if_reached env s)
flush_if_reached-SameRead env s = ground (arith, flush_ack_now-SameRead env s)

message_frame-IsWire :
    (seq : ℕ) (body : List ℕ) → length body + 4 < 2 ^ 16 → IsWire (message_frame seq body)
message_frame-IsWire seq body h = record {
  magic_eq = refl;
  version_eq = refl;
  flags_lt = (decode_flags-encode_flags false false MessageType.message).1;
  seq_lt = omega arith;
  length_eq = refl;
  length_lt = ground arith;
}

-- The outcome of a number that was judged.
abbrev pub outcome_of : ℕ → List ℕ → Observation → ReadOutcome
outcome_of seq body Observation.accept = msg seq body
outcome_of seq body Observation.duplicate = continue
outcome_of seq body Observation.stale = continue

pub after_observe-outcome :
    (env : Env) (s : Session) (seq : ℕ) (body : List ℕ) (o : Observation)
    → ((of_message (after_observe env s seq body o)).0 ≡ outcome_of seq body o)
      × SameRead s (of_message (after_observe env s seq body o)).1
after_observe-outcome env s seq body Observation.accept =
    let s' : Session = record s { ack_pending = add_pending s.ack_pending (now env s) } in
    (refl, ground (arith, flush_if_reached-SameRead env s'))
after_observe-outcome env s seq body Observation.duplicate = (refl, ground arith)
after_observe-outcome env s seq body Observation.stale = (refl, ground arith)

header_of :
    (seq : ℕ) (body : List ℕ)
    → seq < 2 ^ 32
    → (ltb (length (to_be_bytes 4 seq ++ body)) session_seq_header ≡ false)
      × (from_be_bytes (take 4 (to_be_bytes 4 seq ++ body)) ≡ seq)
      × (drop session_seq_header (to_be_bytes 4 seq ++ body) ≡ body)
header_of seq body h = (ground arith, ground (arith, from_be_bytes-to_be_bytes 4 seq), ground arith)

by_type-message :
    (env : Env) (s : Session) (seq : ℕ) (body : List ℕ)
    → seq < 2 ^ 32
    → by_type env s (message_frame seq body) MessageType.message
      ≡ of_message (
          after_observe env
            (record s { dedup = (observe s.dedup seq).1 })
            seq
            body
            (observe s.dedup seq).0)
unfolding consume_message
by_type-message env s seq body h =
    let (long, number, rest) = header_of seq body h in rw (long, number, rest)

handle_bytes-by_type :
    (env : Env) (s : Session) (frame : Frame) (t : MessageType)
    → IsWire frame
    → decode_flags frame.flags ≡ (false, false, t)
    → handle_bytes env s (encode_frame frame) ≡ by_type env s frame t
unfolding handle_bytes
handle_bytes-by_type env s frame t w e =
    let q : decode_frame (encode_frame frame) ≡ ok frame =
      ap decode_frame (sym (append-nil (encode_frame frame)))
      ∙ decode_frame-encode_frame_wire frame [] w in
    rw (q, e)

-- The bytes of a message make the reader return it exactly when the window accepts its number; the
-- window has then seen the number, and the links and the frames that wait for an acknowledgement
-- are as they were.
pub handle_bytes-message :
    (env : Env) (s : Session) (seq : ℕ) (body : List ℕ)
    → seq < 2 ^ 32
    → length body + 4 < 2 ^ 16
    → ((handle_bytes env s (encode_message seq body)).0
        ≡ outcome_of seq body (observe s.dedup seq).0)
      × SameRead
          (record s { dedup = (observe s.dedup seq).1 })
          (handle_bytes env s (encode_message seq body)).1
unfolding encode_message
handle_bytes-message env s seq body h k =
    rw
      (
        handle_bytes-by_type env s (message_frame seq body) MessageType.message
            (message_frame-IsWire seq body k)
            (decode_flags-encode_flags false false MessageType.message).0,
        by_type-message env s seq body h,
      )
      (after_observe-outcome env (record s { dedup = (observe s.dedup seq).1 }) seq body
        (observe s.dedup seq).0)

ack_frame-IsWire : (a : AckFrame) → a.ack < 2 ^ 32 → a.bitmap < 2 ^ 128 → IsWire (ack_frame a)
ack_frame-IsWire a h k =
    let e = (decode_ack-encode_ack a [] h k).1 in
    record {
      magic_eq = refl;
      version_eq = refl;
      flags_lt = (decode_flags-encode_flags false false MessageType.ack).1;
      seq_lt = omega arith;
      length_eq = refl;
      length_lt = rw e (omega arith);
    }

-- The bytes of an acknowledgement never reach the caller: they release what `on_ack` releases, and
-- change nothing else.
pub handle_bytes-ack :
    (env : Env) (s : Session) (a : AckFrame)
    → a.ack < 2 ^ 32
    → a.bitmap < 2 ^ 128
    → handle_bytes env s (encode_ack_frame a) ≡ (continue, on_ack s a)
unfolding encode_ack_frame
handle_bytes-ack env s a h k =
    let q : decode_ack (encode_ack a) ≡ ok a =
      ap decode_ack (sym (append-nil (encode_ack a))) ∙ (decode_ack-encode_ack a [] h k).0 in
    handle_bytes-by_type env s (ack_frame a) MessageType.ack (ack_frame-IsWire a h k)
      (decode_flags-encode_flags false false MessageType.ack).0
    ∙ rw q
