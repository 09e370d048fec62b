-- ===== src/Protocol/Frame/Accepts.antt =====
-- What `decode_frame` accepts: the encodings of the frames that the wire can carry, followed by
-- anything.
use mlink.Prelude.{
  ℕ, suc, ◌+◌, ◌-◌, ◌*◌, ◌/◌, ◌%◌, ◌^◌, ◌<◌, ◌≤◌, ◌≡◌, ◌≢◌, ◌↔◌, sym, arith, List, [], ◌∷◌, ◌++◌,
  length, take, drop, length-take, take-append-drop, ltb, ltb→lt, Bool-cases, inl, inr, All, IsByte,
  to_be_bytes,
}
use mlink.Protocol.Errors.{ok}
use mlink.Protocol.Types.{Frame, header_size, magic_number, protocol_version}
use mlink.Protocol.Frame.{encode_frame, decode_frame}
use mlink.Protocol.Frame.RoundTrip.{IsWire, decode_frame-encode_frame_wire}

to_be_pair : (a b : ℕ) → a < 256 → b < 256 → to_be_bytes 2 (a * 256 + b) ≡ a ∷ b ∷ []
to_be_pair a b ha hb = ground arith

from_be_pair-lt : (a b : ℕ) → a < 256 → b < 256 → a * 256 + b < 2 ^ 16
from_be_pair-lt a b ha hb = omega arith

-- The header and the payload that an accepted input of eight bytes and more shows.
abbrev read_frame : ℕ → ℕ → ℕ → ℕ → ℕ → ℕ → ℕ → ℕ → List ℕ → Frame
read_frame a b c d e f g h rest = record {
  magic = a * 256 + b;
  version = c;
  flags = d;
  seq = e * 256 + f;
  length = g * 256 + h;
  payload = take (g * 256 + h) rest;
}

accepted_parts :
    (a b c d e f g h : ℕ) (rest : List ℕ) (frame : Frame)
    → decode_frame (a ∷ b ∷ c ∷ d ∷ e ∷ f ∷ g ∷ h ∷ rest) ≡ ok frame
    → (frame ≡ read_frame a b c d e f g h rest)
      × (a * 256 + b ≡ magic_number)
      × (c ≡ protocol_version)
      × (g * 256 + h ≤ length rest)
unfolding decode_frame
accepted_parts a b c d e f g h rest frame q = ground arith

too_short :
    (bytes : List ℕ) (frame : Frame) → length bytes < header_size → decode_frame bytes ≢ ok frame
unfolding decode_frame
too_short bytes frame h q = ground arith

module _ (a b c d e f g h : ℕ) (rest : List ℕ) where
  drop_header :
      (n : ℕ) → drop (header_size + n) (a ∷ b ∷ c ∷ d ∷ e ∷ f ∷ g ∷ h ∷ rest) ≡ drop n rest
  drop_header n =
      let eight : header_size + n ≡ suc (suc (suc (suc (suc (suc (suc (suc n))))))) = omega arith in
      rw eight

  take_header :
      (n : ℕ)
      → take (header_size + n) (a ∷ b ∷ c ∷ d ∷ e ∷ f ∷ g ∷ h ∷ rest)
        ≡ a ∷ b ∷ c ∷ d ∷ e ∷ f ∷ g ∷ h ∷ take n rest
  take_header n =
      let eight : header_size + n ≡ suc (suc (suc (suc (suc (suc (suc (suc n))))))) = omega arith in
      rw eight

  read_frame-IsWire :
      All IsByte (a ∷ b ∷ c ∷ d ∷ e ∷ f ∷ g ∷ h ∷ rest)
      → a * 256 + b ≡ magic_number
      → c ≡ protocol_version
      → g * 256 + h ≤ length rest
      → IsWire (read_frame a b c d e f g h rest)
  read_frame-IsWire w m v l = record {
    magic_eq = m;
    version_eq = v;
    flags_lt = omega arith;
    seq_lt = omega arith;
    length_eq = omega (arith, length-take (g * 256 + h) rest);
    length_lt = omega (arith, length-take (g * 256 + h) rest);
  }

  encode_frame-read_frame :
      All IsByte (a ∷ b ∷ c ∷ d ∷ e ∷ f ∷ g ∷ h ∷ rest)
      → a * 256 + b ≡ magic_number
      → c ≡ protocol_version
      → g * 256 + h ≤ length rest
      → encode_frame (read_frame a b c d e f g h rest) ++ drop (g * 256 + h) rest
        ≡ a ∷ b ∷ c ∷ d ∷ e ∷ f ∷ g ∷ h ∷ rest
  unfolding encode_frame
  encode_frame-read_frame w m v l =
      ground (arith, length-take (g * 256 + h) rest, take-append-drop (g * 256 + h) rest)

pub decode_frame_sound :
    (bytes : List ℕ) (frame : Frame)
    → All IsByte bytes
    → decode_frame bytes ≡ ok frame
    → IsWire frame × (encode_frame frame ++ drop (header_size + frame.length) bytes ≡ bytes)
decode_frame_sound (a ∷ b ∷ c ∷ d ∷ e ∷ f ∷ g ∷ h ∷ rest) frame w q =
    let (eq, m, v, l) = accepted_parts a b c d e f g h rest frame q in
    rw eq (
      read_frame-IsWire a b c d e f g h rest w m v l,
      rw drop_header (encode_frame-read_frame a b c d e f g h rest w m v l),
    )
decode_frame_sound bytes frame w q = absurd (too_short bytes frame (omega arith) q)

-- The bytes that are a frame's encoding and more are the only ones that decode to that frame.
pub decode_frame_iff :
    (bytes : List ℕ) (frame : Frame)
    → All IsByte bytes
    → (decode_frame bytes ≡ ok frame)
      ↔ (IsWire frame × ((rest : List ℕ) × (bytes ≡ encode_frame frame ++ rest)))
decode_frame_iff bytes frame w = (
  λ q.
      let (wire, e) = decode_frame_sound bytes frame w q in
      (wire, (drop (header_size + frame.length) bytes, sym e)),
  λ h. rw (h.1.1) (decode_frame-encode_frame_wire frame h.1.0 h.0),
)

length-encode_frame :
    (frame : Frame) → length (encode_frame frame) ≡ header_size + length frame.payload
unfolding encode_frame
length-encode_frame frame = omega arith

-- An input that ends inside the payload of a frame is refused.
cut_payload :
    (frame : Frame) (m : ℕ)
    → IsWire frame
    → m < length frame.payload
    → (g : Frame) → decode_frame (take (header_size + m) (encode_frame frame)) ≢ ok g
unfolding encode_frame
cut_payload frame m w h g q =
    let n = length frame.payload % 2 ^ 16 in
    let (_, _, _, l) =
      accepted_parts 0x4D 0x4C protocol_version frame.flags (frame.seq / 256 % 256)
        (frame.seq % 256) (n / 256 % 256) (n % 256) (take m frame.payload) g
        (rw
          (take_header 0x4D 0x4C protocol_version frame.flags (frame.seq / 256 % 256)
            (frame.seq % 256) (n / 256 % 256) (n % 256) frame.payload m)
          at q) in
    omega (arith, length-take m frame.payload, w.length_lt)

-- For a frame that the wire can carry, with the magic number and the version, flags of one byte, a
-- number of 16 bits, and a payload of less than 2 ^ 16 bytes whose length it tells: every proper
-- prefix of its encoding is refused.
pub decode_frame_cut :
    (frame : Frame) (n : ℕ)
    → IsWire frame
    → n < length (encode_frame frame)
    → (g : Frame) → decode_frame (take n (encode_frame frame)) ≢ ok g
decode_frame_cut frame n w h g = elim (Bool-cases (ltb n header_size)) [
  | inl short ↦
      too_short (take n (encode_frame frame)) g
        (omega (arith, ltb→lt n header_size short, length-take n (encode_frame frame)))
  | inr long ↦
      let e : n ≡ header_size + (n - header_size) = ground arith in
      rw e (cut_payload frame (n - header_size) w (ground (arith, length-encode_frame frame)) g)
]
