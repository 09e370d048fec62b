-- ===== src/Protocol/Seq.antt =====
-- crates/mlink-core/src/protocol/seq.rs: the generator of session sequence numbers and the window
-- that drops duplicates. A `u32` is a number below 2 ^ 32, a `u128` one below 2 ^ 128.
pub mod Serial
pub mod Window
pub mod Refines
pub mod Stream
use mlink.Prelude.{
  ℕ, ◌+◌, ◌-◌, ◌*◌, ◌%◌, ◌^◌, ◌≡◌, bit_and, bit_or, Bool, true, false, not, ltb, leb, ◌==◌, ◌&&◌,
  if◌then◌else◌, String,
}

abbrev pub u32_mod : ℕ
u32_mod = 2 ^ 32

abbrev pub u128_mod : ℕ
u128_mod = 2 ^ 128

-- `a.wrapping_sub(b)` on `u32`, for `b` below 2 ^ 32.
abbrev pub wrapping_sub : ℕ → ℕ → ℕ
wrapping_sub a b = (a + u32_mod - b) % u32_mod

pub record SeqGen : Type 0 where
  pub next : ℕ

unfoldable pub new_gen : SeqGen
new_gen = record { next = 0 }

-- The current number and the generator after it.
unfoldable pub next_seq : SeqGen → ℕ × SeqGen
next_seq g = (g.next, record { next = (g.next + 1) % u32_mod })

pub data Observation : Type 0 where
  accept duplicate stale : Observation

pub record DedupWindow : Type 0 where
  pub last : ℕ
  pub bits : ℕ
  pub seen : Bool

unfoldable pub new_window : DedupWindow
new_window = record { last = 0; bits = 0; seen = false }

-- The branch of `observe` for a number behind `last`.
unfoldable pub observe_back : DedupWindow → ℕ → Observation × DedupWindow
observe_back w seq =
    let back = wrapping_sub w.last seq in
    let mask : ℕ = 2 ^ back in
    if leb 128 back
    then (stale, w)
    else if not (bit_and w.bits mask == 0)
    then (duplicate, w)
    else (accept, record w { bits = bit_or w.bits mask })

unfoldable pub observe : DedupWindow → ℕ → Observation × DedupWindow
unfolding observe_back
observe w seq =
    let forward = wrapping_sub seq w.last in
    if not w.seen
    then (accept, record { last = seq; bits = 1; seen = true })
    else if not (forward == 0) && ltb forward 0x8000_0000
    then (
      accept,
      record w {
        last = seq;
        bits = if leb 128 forward then 1 else bit_or (w.bits * 2 ^ forward % u128_mod) 1;
      },
    )
    else if forward == 0
    then (duplicate, w)
    else observe_back w seq

unfoldable pub snapshot : DedupWindow → ℕ × ℕ
snapshot w = if not w.seen then (0, 0) else (w.last, w.bits)
