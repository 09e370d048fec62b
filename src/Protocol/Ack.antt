-- ===== src/Protocol/Ack.antt =====
-- crates/mlink-core/src/protocol/ack.rs: acknowledgement frames, and the ring of the frames that
-- wait for one.
pub mod Codec
pub mod Ring
pub mod Serial
use mlink.Prelude.{
  ℕ, ◌+◌, ◌-◌, ◌/◌, ◌%◌, ◌^◌, bit_and, Bool, true, false, not, ltb, leb, ◌==◌, ◌||◌, if◌then◌else◌,
  Option, none, some, List, [], ◌∷◌, ◌++◌, length, take, drop, retain, to_be_bytes, from_be_bytes,
}
use mlink.Protocol.Errors.{Result, ok, err, codec_error, ack_too_short}
use mlink.Protocol.Seq.{wrapping_sub}

abbrev pub ack_frame_bytes : ℕ
ack_frame_bytes = 20

abbrev pub unacked_ring_cap : ℕ
unacked_ring_cap = 256

abbrev pub sack_window : ℕ
sack_window = 128

pub record AckFrame : Type 0 where
  pub ack : ℕ
  pub bitmap : ℕ

unfoldable pub encode_ack : AckFrame → List ℕ
encode_ack a = to_be_bytes 4 a.ack ++ to_be_bytes 16 a.bitmap

unfoldable pub decode_ack : List ℕ → Result AckFrame
decode_ack b =
    if ltb (length b) ack_frame_bytes
    then err (codec_error (ack_too_short (length b) ack_frame_bytes))
    else ok (record {
      ack = from_be_bytes (take 4 b);
      bitmap = from_be_bytes (take (20 - 4) (drop 4 b));
    })

-- `a` is at or after `b` under the wrap-around of 32 bits.
unfoldable pub seq_geq : ℕ → ℕ → Bool
seq_geq a b = ltb (wrapping_sub a b) 0x8000_0000

-- The test of `sack` on one number: it is kept.
unfoldable pub sack_keeps : ℕ → ℕ → ℕ → Bool
sack_keeps base bitmap s =
    let d = wrapping_sub s base in
    if d == 0 || ltb sack_window d then true else bit_and (bitmap / 2 ^ (d - 1)) 1 == 0

pub record UnackedRing {ℓ} (T : Type ℓ) : Type ℓ where
  pub buf : List (ℕ × T)

module _ {ℓ} {T : Type ℓ} where
  abbrev pub new_ring : UnackedRing T
  new_ring = record { buf = [] }

  -- `pop_front`.
  abbrev pub pop_front : List (ℕ × T) → Option (ℕ × T) × List (ℕ × T)
  pop_front [] = (none, [])
  pop_front (x ∷ xs) = (some x, xs)

  -- The evicted entry, and the ring with the new one at its end.
  unfoldable pub push : UnackedRing T → ℕ → T → Option (ℕ × T) × UnackedRing T
  push r seq item =
      if leb unacked_ring_cap (length r.buf)
      then ((pop_front r.buf).0, record { buf = (pop_front r.buf).1 ++ ((seq, item) ∷ []) })
      else (none, record { buf = r.buf ++ ((seq, item) ∷ []) })

  unfoldable pub ack_cum : UnackedRing T → ℕ → UnackedRing T
  unfolding seq_geq
  ack_cum r ack = record { buf = retain (λ e. not (seq_geq ack e.0)) r.buf }

  unfoldable pub sack : UnackedRing T → ℕ → ℕ → UnackedRing T
  sack r base bitmap =
      if bitmap == 0 then r else record { buf = retain (λ e. sack_keeps base bitmap e.0) r.buf }

  unfoldable pub unacked_since : UnackedRing T → ℕ → List (ℕ × T)
  unfolding seq_geq
  unacked_since r since = retain (λ e. seq_geq e.0 since) r.buf

  unfoldable pub ring_len : UnackedRing T → ℕ
  ring_len r = length r.buf

  unfoldable pub is_full : UnackedRing T → Bool
  is_full r = leb unacked_ring_cap (length r.buf)
