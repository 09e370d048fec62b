-- ===== src/Protocol/Tests.antt =====
-- Concrete runs of the wire protocol: crates/mlink-core/src/protocol.
use mlink.Prelude.{
  keep_last, ℕ, ◌%◌, ◌≡◌, ◌≢◌, ◌↔◌, refl, arith, List, [], ◌∷◌, ◌++◌, true, false, take, All,
  IsByte, not, retain,
}
use mlink.Protocol.Errors.{ok}
use mlink.Protocol.Types.{MessageType, Frame, to_u8, encode_flags, magic_number, protocol_version}
use mlink.Protocol.Types.Flags.{decode_flags-encode_flags}
use mlink.Protocol.Frame.{encode_frame, decode_frame}
use mlink.Protocol.Frame.RoundTrip.{IsWire}
use mlink.Protocol.Frame.Accepts.{decode_frame_iff, decode_frame_cut}
use mlink.Protocol.Seq.{new_window, observe, u32_mod}
use mlink.Protocol.Seq.Window.{contains, judge, no_log}
use mlink.Protocol.Seq.Refines.{Refines, observe-Refines}
use mlink.Protocol.Seq.Stream.{deliver, Refines-new, NoRepeat, deliver_exactly_once}
use mlink.Protocol.Ack.{AckFrame, UnackedRing, new_ring, ack_cum, sack, unacked_ring_cap}
use mlink.Protocol.Ack.Ring.{push_all, push_all-keep_last}
use mlink.Protocol.Ack.Serial.{wrapped, sacked, ack_cum_exact, sack_exact}

abbrev hello : Frame
hello = record {
  magic = magic_number;
  version = protocol_version;
  flags = encode_flags false true MessageType.message;
  seq = 258;
  length = 3;
  payload = 7 ∷ 8 ∷ 9 ∷ [];
}

hello-IsWire : IsWire hello
hello-IsWire = record {
  magic_eq = refl;
  version_eq = refl;
  flags_lt = (decode_flags-encode_flags false true MessageType.message).1;
  seq_lt = omega arith;
  length_eq = refl;
  length_lt = omega arith;
}

encode_hello : encode_frame hello ≡ 0x4D ∷ 0x4C ∷ 1 ∷ 80 ∷ 1 ∷ 2 ∷ 0 ∷ 3 ∷ 7 ∷ 8 ∷ 9 ∷ []
unfolding encode_frame encode_flags to_u8
encode_hello = refl

abbrev wire_bytes : List ℕ
wire_bytes = 0x4D ∷ 0x4C ∷ 1 ∷ 80 ∷ 1 ∷ 2 ∷ 0 ∷ 3 ∷ 7 ∷ 8 ∷ 9 ∷ 5 ∷ []

wire_bytes-IsByte : All IsByte wire_bytes
wire_bytes-IsByte = ground arith

decode_frame_iff_example :
    (decode_frame wire_bytes ≡ ok hello)
    ↔ (IsWire hello × ((rest : List ℕ) × (wire_bytes ≡ encode_frame hello ++ rest)))
decode_frame_iff_example = decode_frame_iff wire_bytes hello wire_bytes-IsByte

decode_frame_cut_example : decode_frame (take 9 (encode_frame hello)) ≢ ok hello
decode_frame_cut_example =
    decode_frame_cut hello 9 hello-IsWire (rw encode_hello (omega arith)) hello

observe-Refines_example :
    Refines (observe new_window (5 % u32_mod)).1 (judge no_log 5).1
    × ((observe new_window (5 % u32_mod)).0 ≡ (judge no_log 5).0)
observe-Refines_example = observe-Refines new_window no_log 5 Refines-new (λ s. cc)

deliver_exactly_once_example :
    NoRepeat (deliver new_window [] (4 ∷ 6 ∷ 5 ∷ 4 ∷ []))
    × ((m : ℕ)
        → contains (deliver new_window [] (4 ∷ 6 ∷ 5 ∷ 4 ∷ [])) m ≡ contains (4 ∷ 6 ∷ 5 ∷ 4 ∷ []) m)
deliver_exactly_once_example =
    deliver_exactly_once 0 4 (6 ∷ 5 ∷ 4 ∷ []) (ground arith) (ground arith)

abbrev ack_seven : AckFrame
ack_seven = record { ack = 7; bitmap = 5 }

abbrev three : List (ℕ × ℕ)
three = (8, 80) ∷ (9, 90) ∷ (10, 100) ∷ []

push_all-keep_last_example : (push_all new_ring three).buf ≡ keep_last unacked_ring_cap three
push_all-keep_last_example = push_all-keep_last three

abbrev ring_three : UnackedRing ℕ
ring_three = record { buf = three }

ack_cum_exact_example :
    (ack_cum (record { buf = wrapped three }) (8 % u32_mod)).buf
    ≡ wrapped ((9, 90) ∷ (10, 100) ∷ [])
ack_cum_exact_example = ack_cum_exact 8 three (ground arith)

sack_exact_example :
    (sack (record { buf = wrapped three }) (7 % u32_mod) 5).buf
    ≡ wrapped (retain (λ e. not (sacked 7 5 e.0)) three)
sack_exact_example = sack_exact 7 5 three (ground arith)
