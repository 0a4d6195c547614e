-- ===== src/HexInt/Text.antt =====
-- The text forms of common/hexint.go: encodeHexNumber, decodeHexNumber, HexInt.String and the text
-- of HexInt.UnmarshalJSON, with encoding/hex. A string is the list of its bytes: 48 is '0', 120 is
-- 'x', 45 is '-'.
pub mod RoundTrip
use rewardcalculator.Base.{
  ℕ, ◌+◌, ◌-◌, ◌*◌, ◌/◌, ◌%◌, Bool, true, false, Option, none, some, List, [], ◌∷◌, length, ltb,
  leb, ◌==◌, ◌&&◌, if◌then◌else◌,
}
use rewardcalculator.Base.Int.{ℤ, pos, negsuc, ◌-ℤ◌}
use rewardcalculator.HexInt.Digits.{value}
use rewardcalculator.HexInt.Big.{bytes}

-- encoding/hex: `EncodeToString`.
unfoldable pub hex_char : ℕ → ℕ
hex_char n = if ltb n 10 then 48 + n else 87 + n

unfoldable pub encode_to_string : List ℕ → List ℕ
unfolding hex_char
encode_to_string [] = []
encode_to_string (b ∷ bs) = hex_char (b / 16) ∷ hex_char (b % 16) ∷ encode_to_string bs

-- encoding/hex: `DecodeString`, `none` with an error.
unfoldable pub from_hex_char : ℕ → Option ℕ
from_hex_char c =
    if leb 48 c && leb c 57
    then some (c - 48)
    else if leb 97 c && leb c 102
    then some (c - 87)
    else if leb 65 c && leb c 70
    then some (c - 55)
    else none

abbrev pub joined : Option ℕ → Option ℕ → Option (List ℕ) → Option (List ℕ)
joined (some a) (some b) (some bs) = some ((a * 16 + b) ∷ bs)
joined a b bs = none

unfoldable pub decode_string : List ℕ → Option (List ℕ)
unfolding from_hex_char
decode_string [] = some []
decode_string (a ∷ []) = none
decode_string (a ∷ b ∷ s) = joined (from_hex_char a) (from_hex_char b) (decode_string s)

unfoldable pub without_zero : List ℕ → List ℕ
without_zero [] = []
without_zero (c ∷ s) = if c == 48 then s else c ∷ s

unfoldable pub encode_hex_number : Bool → List ℕ → List ℕ
unfolding encode_to_string without_zero
encode_hex_number neg [] = 48 ∷ 120 ∷ 48 ∷ []
encode_hex_number neg (b ∷ bs) =
    let s = without_zero (encode_to_string (b ∷ bs)) in
    if neg then 45 ∷ 48 ∷ 120 ∷ s else 48 ∷ 120 ∷ s

-- `s[0:2] == "0x"` of a string of more than two bytes.
unfoldable pub without_prefix : List ℕ → List ℕ
without_prefix (a ∷ b ∷ c ∷ s) = if a == 48 && b == 120 then c ∷ s else a ∷ b ∷ c ∷ s
without_prefix s = s

unfoldable pub even_digits : List ℕ → List ℕ
even_digits s = if length s % 2 == 1 then 48 ∷ s else s

-- The sign and the bytes, where there is no error.
abbrev pub with_sign : Bool → Option (List ℕ) → Option (Bool × List ℕ)
with_sign negative none = none
with_sign negative (some bs) = some (negative, bs)

unfoldable pub decode_unsigned : Bool → List ℕ → Option (Bool × List ℕ)
unfolding without_prefix even_digits decode_string
decode_unsigned negative s = with_sign negative (decode_string (even_digits (without_prefix s)))

unfoldable pub decode_hex_number : List ℕ → Option (Bool × List ℕ)
unfolding decode_unsigned
decode_hex_number [] = decode_unsigned false []
decode_hex_number (c ∷ s) =
    if c == 45 then decode_unsigned true s else decode_unsigned false (c ∷ s)

-- HexInt.String
unfoldable pub hex_int_to_string : ℤ → List ℕ
unfolding encode_hex_number bytes
hex_int_to_string (pos n) = encode_hex_number false (bytes n)
hex_int_to_string (negsuc n) = encode_hex_number true (bytes (n + 1))

-- The number of a JSON string in HexInt.UnmarshalJSON, `none` with an error.
unfoldable pub set_bytes : Option (Bool × List ℕ) → Option ℤ
unfolding value
set_bytes none = none
set_bytes (some (negative, bs)) =
    some (if negative then pos 0 -ℤ pos (value 0 bs) else pos (value 0 bs))

unfoldable pub hex_int_from_string : List ℕ → Option ℤ
unfolding decode_hex_number set_bytes
hex_int_from_string s = set_bytes (decode_hex_number s)
