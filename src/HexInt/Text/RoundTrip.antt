-- ===== src/HexInt/Text/RoundTrip.antt =====
-- A number and its text.
use rewardcalculator.Base.{
  ℕ, zero, suc, ◌+◌, ◌*◌, ◌/◌, ◌%◌, ◌<◌, ◌≡◌, refl, ap, ◌∙◌, arith, Bool, true, false, some, List,
  [], ◌∷◌, length, ◌==◌, if◌then◌else◌, Bool-cases, inl, inr,
}
use rewardcalculator.Base.Int.{ℤ, pos, negsuc, ◌-ℤ◌}
use rewardcalculator.HexInt.Digits.{AreBytes, value}
use rewardcalculator.HexInt.Big.{bytes}
use rewardcalculator.HexInt.Big.RoundTrip.{bytes-IsProper, value-bytes}
use rewardcalculator.HexInt.Text.{
  hex_char, encode_to_string, from_hex_char, decode_string, without_zero, encode_hex_number,
  without_prefix, even_digits, decode_unsigned, decode_hex_number, with_sign, set_bytes,
  hex_int_to_string, hex_int_from_string,
}

from_hex_char-hex_char : (n : ℕ) → n < 16 → from_hex_char (hex_char n) ≡ some n
unfolding from_hex_char hex_char
from_hex_char-hex_char n h = ground (arith, h)

pub decode_string-encode_to_string :
    (bs : List ℕ) → AreBytes bs → decode_string (encode_to_string bs) ≡ some bs
unfolding decode_string encode_to_string
decode_string-encode_to_string [] h = refl
decode_string-encode_to_string (b ∷ bs) h =
    let whole : b / 16 * 16 + b % 16 ≡ b = omega arith in
    rw
      (
        from_hex_char-hex_char (b / 16) (omega (arith, h.0)),
        from_hex_char-hex_char (b % 16) (omega arith),
        decode_string-encode_to_string bs h.1,
        whole,
      )
      refl

-- An even number of digits.
pub even : (bs : List ℕ) → length (encode_to_string bs) % 2 ≡ 0
unfolding encode_to_string
even [] = refl
even (b ∷ bs) = omega (arith, even bs)

-- The digit that was left out comes back.
even_digits-without_zero :
    (b : ℕ) (bs : List ℕ)
    → even_digits (without_zero (encode_to_string (b ∷ bs))) ≡ encode_to_string (b ∷ bs)
unfolding even_digits without_zero encode_to_string
even_digits-without_zero b bs = elim (Bool-cases (hex_char (b / 16) == 48)) [
  | inl left_out ↦
      let odd : (suc (length (encode_to_string bs)) % 2 == 1) ≡ true = ground (arith, even bs) in
      let is : hex_char (b / 16) ≡ 48 = ground (arith, left_out) in rw (left_out, odd, is) refl
  | inr kept ↦
      let two : (suc (suc (length (encode_to_string bs))) % 2 == 1) ≡ false =
        ground (arith, even bs) in
      rw (kept, two) refl
]

without_prefix-behind : (s : List ℕ) → 0 < length s → without_prefix (48 ∷ 120 ∷ s) ≡ s
unfolding without_prefix
without_prefix-behind [] h = absurd (omega (arith, h))
without_prefix-behind (c ∷ s) h = refl

some_digit : (b : ℕ) (bs : List ℕ) → 0 < length (without_zero (encode_to_string (b ∷ bs)))
unfolding without_zero encode_to_string
some_digit b bs = elim (Bool-cases (hex_char (b / 16) == 48)) [
  | inl left_out ↦ rw left_out (omega arith)
  | inr kept ↦ rw kept (omega arith)
]

decode_unsigned-behind :
    (neg : Bool) (b : ℕ) (bs : List ℕ)
    → AreBytes (b ∷ bs)
    → decode_unsigned neg (48 ∷ 120 ∷ without_zero (encode_to_string (b ∷ bs))) ≡ some (neg, b ∷ bs)
unfolding decode_unsigned
decode_unsigned-behind neg b bs h =
    let s = without_zero (encode_to_string (b ∷ bs)) in
    ap (with_sign neg) (
      ap (λ t. decode_string (even_digits t)) (without_prefix-behind s (some_digit b bs))
      ∙ ap decode_string (even_digits-without_zero b bs)
      ∙ decode_string-encode_to_string (b ∷ bs) h)

decode_hex_number-encode_hex_number :
    (neg : Bool) (b : ℕ) (bs : List ℕ)
    → AreBytes (b ∷ bs)
    → decode_hex_number (encode_hex_number neg (b ∷ bs)) ≡ some (neg, b ∷ bs)
unfolding decode_hex_number encode_hex_number
decode_hex_number-encode_hex_number true b bs h = decode_unsigned-behind true b bs h
decode_hex_number-encode_hex_number false b bs h = decode_unsigned-behind false b bs h

signed : Bool → ℕ → ℤ
signed neg n = if neg then pos 0 -ℤ pos n else pos n

from_string-of_bytes :
    (neg : Bool) (n : ℕ)
    → 0 < n
    → hex_int_from_string (encode_hex_number neg (bytes n)) ≡ some (signed neg n)
unfolding hex_int_from_string set_bytes signed
from_string-of_bytes neg n h =
    let p = bytes-IsProper n h in
    let digits : value 0 (p.first ∷ p.rest) ≡ n = rw (← p.is) (value-bytes n h) in
    ap (λ l. set_bytes (decode_hex_number (encode_hex_number neg l))) p.is
    ∙ ap set_bytes (decode_hex_number-encode_hex_number neg p.first p.rest p.are_bytes)
    ∙ ap (λ m. some (signed neg m)) digits

minus : (n : ℕ) → pos 0 -ℤ pos (n + 1) ≡ negsuc n
unfolding ◌-ℤ◌
minus n = ground arith

-- Every integer comes back from its text, zero and the negative ones included.
pub hex_int_from_string-hex_int_to_string :
    (i : ℤ) → hex_int_from_string (hex_int_to_string i) ≡ some i
unfolding hex_int_to_string hex_int_from_string set_bytes decode_hex_number encode_hex_number
    decode_unsigned without_prefix even_digits decode_string from_hex_char bytes value signed
hex_int_from_string-hex_int_to_string (pos zero) = refl
hex_int_from_string-hex_int_to_string (pos (suc n)) =
    from_string-of_bytes false (suc n) (omega arith)
hex_int_from_string-hex_int_to_string (negsuc n) =
    from_string-of_bytes true (n + 1) (omega arith) ∙ ap some (minus n)
