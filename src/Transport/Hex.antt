-- ===== src/Transport/Hex.antt =====
-- crates/mlink-core/src/transport/tcp.rs, ble.rs and peripheral.rs: eight bytes as hexadecimal text.
-- A text is the list of its bytes in UTF-8.
pub mod RoundTrip
use mlink.Prelude.{
  ℕ, ◌+◌, ◌-◌, ◌*◌, ◌/◌, ◌%◌, List, [], ◌∷◌, ◌++◌, Bool, true, false, ◌&&◌, ◌||◌, not, Option, none,
  some, if◌then◌else◌, ltb, leb, ◌==◌, length, get_or,
}

-- `{:02x}`.
abbrev pub lower_digit : ℕ → ℕ
lower_digit n = if ltb n 10 then 48 + n else 87 + n

unfoldable pub hex_encode : List ℕ → List ℕ
hex_encode [] = []
hex_encode (b ∷ bs) = lower_digit (b / 16) ∷ lower_digit (b % 16) ∷ hex_encode bs

-- The table of the peripheral's version, b"0123456789abcdef".
abbrev pub hex_table : List ℕ
hex_table = 48 ∷ 49 ∷ 50 ∷ 51 ∷ 52 ∷ 53 ∷ 54 ∷ 55 ∷ 56 ∷ 57 ∷ 97 ∷ 98 ∷ 99 ∷ 100 ∷ 101 ∷ 102 ∷ []

unfoldable pub hex_encode_by_table : List ℕ → List ℕ
hex_encode_by_table [] = []
hex_encode_by_table (b ∷ bs) =
    get_or hex_table (b / 16) 0 ∷ get_or hex_table (b % 16) 0 ∷ hex_encode_by_table bs

abbrev pub is_hexdigit : ℕ → Bool
is_hexdigit c = (leb 48 c && leb c 57) || ((leb 65 c && leb c 70) || (leb 97 c && leb c 102))

abbrev pub all_hexdigits : List ℕ → Bool
all_hexdigits [] = true
all_hexdigits (c ∷ cs) = is_hexdigit c && all_hexdigits cs

-- The value of a digit, of either case.
abbrev pub digit_value : ℕ → ℕ
digit_value c = if leb c 57 then c - 48 else if leb c 70 then c - 55 else c - 87

abbrev pub pairs : List ℕ → List ℕ
pairs [] = []
pairs (a ∷ []) = []
pairs (a ∷ b ∷ cs) = (digit_value a * 16 + digit_value b) ∷ pairs cs

unfoldable pub hex_decode_8 : List ℕ → Option (List ℕ)
hex_decode_8 s = if not (length s == 16) || not (all_hexdigits s) then none else some (pairs s)
