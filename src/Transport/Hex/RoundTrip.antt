-- ===== src/Transport/Hex/RoundTrip.antt =====
-- What is read back of a text of hexadecimal digits, and that the two encoders agree.
use mlink.Prelude.{
  ℕ, zero, suc, ◌*◌, ◌/◌, ◌%◌, ◌<◌, ◌≡◌, refl, ap, arith, List, [], ◌∷◌, true, some, ◌==◌, length,
  get_or, All, IsByte,
}
use mlink.Transport.Hex.{
  lower_digit, hex_encode, hex_table, hex_encode_by_table, is_hexdigit, all_hexdigits, digit_value,
  pairs, hex_decode_8,
}

digit_of :
    (n : ℕ) → n < 16 → (digit_value (lower_digit n) ≡ n) × (is_hexdigit (lower_digit n) ≡ true)
digit_of n h = ground arith

table_digit : (n : ℕ) → n < 16 → get_or hex_table n 0 ≡ lower_digit n
table_digit zero h = refl
table_digit (suc zero) h = refl
table_digit (suc (suc zero)) h = refl
table_digit (suc (suc (suc zero))) h = refl
table_digit (suc (suc (suc (suc zero)))) h = refl
table_digit (suc (suc (suc (suc (suc zero))))) h = refl
table_digit (suc (suc (suc (suc (suc (suc zero)))))) h = refl
table_digit (suc (suc (suc (suc (suc (suc (suc zero))))))) h = refl
table_digit (suc (suc (suc (suc (suc (suc (suc (suc zero)))))))) h = refl
table_digit (suc (suc (suc (suc (suc (suc (suc (suc (suc zero))))))))) h = refl
table_digit (suc (suc (suc (suc (suc (suc (suc (suc (suc (suc zero)))))))))) h = refl
table_digit (suc (suc (suc (suc (suc (suc (suc (suc (suc (suc (suc zero))))))))))) h = refl
table_digit (suc (suc (suc (suc (suc (suc (suc (suc (suc (suc (suc (suc zero)))))))))))) h = refl
table_digit (suc (suc (suc (suc (suc (suc (suc (suc (suc (suc (suc (suc (suc zero))))))))))))) h =
    refl
table_digit (suc (suc (suc (suc (suc (suc (suc (suc (suc (suc (suc (suc (suc (suc zero))))))))))))))
      h =
    refl
table_digit
      (suc (suc (suc (suc (suc (suc (suc (suc (suc (suc (suc (suc (suc (suc (suc zero)))))))))))))))
      h =
    refl
table_digit
      (suc
        (suc (suc (suc (suc (suc (suc (suc (suc (suc (suc (suc (suc (suc (suc (suc n))))))))))))))))
      h =
    absurd (omega arith)

length-hex_encode : (bs : List ℕ) → length (hex_encode bs) ≡ length bs * 2
unfolding hex_encode
length-hex_encode [] = refl
length-hex_encode (b ∷ bs) = omega (arith, length-hex_encode bs)

pub hex_encode-digits : (bs : List ℕ) → All IsByte bs → all_hexdigits (hex_encode bs) ≡ true
unfolding hex_encode
hex_encode-digits [] h = refl
hex_encode-digits (b ∷ bs) h =
    rw ((digit_of (b / 16) (omega (arith, h.0))).1, (digit_of (b % 16) (omega arith)).1)
      (hex_encode-digits bs h.1)

pairs-hex_encode : (bs : List ℕ) → All IsByte bs → pairs (hex_encode bs) ≡ bs
unfolding hex_encode
pairs-hex_encode [] h = refl
pairs-hex_encode (b ∷ bs) h =
    rw
      (
        (digit_of (b / 16) (omega (arith, h.0))).0,
        (digit_of (b % 16) (omega arith)).0,
        pairs-hex_encode bs h.1,
      )
      (ap (λ (t : ℕ). t ∷ bs) (omega arith))

pub encoders-agree : (bs : List ℕ) → All IsByte bs → hex_encode_by_table bs ≡ hex_encode bs
unfolding hex_encode hex_encode_by_table
encoders-agree [] h = refl
encoders-agree (b ∷ bs) h =
    rw
      (
        table_digit (b / 16) (omega (arith, h.0)),
        table_digit (b % 16) (omega arith),
        encoders-agree bs h.1,
      )
      refl

-- Eight bytes are read back of their hexadecimal text, and the encoder of the peripheral, which looks
-- its digits up in a table, writes the same text.
pub hex_decode_8-hex_encode :
    (bs : List ℕ)
    → length bs ≡ 8
    → All IsByte bs
    → (hex_decode_8 (hex_encode bs) ≡ some bs) × (hex_encode_by_table bs ≡ hex_encode bs)
hex_decode_8-hex_encode bs e h = (decoded, encoders-agree bs h)
  where
    decoded : hex_decode_8 (hex_encode bs) ≡ some bs
    decoded =
        let long : (length (hex_encode bs) == 16) ≡ true =
          ground (arith, length-hex_encode bs, e) in
        unfold hex_decode_8 in rw (long, hex_encode-digits bs h) (ap some (pairs-hex_encode bs h))
