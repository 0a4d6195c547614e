-- ===== src/HexInt/Tests.antt =====
-- The byte forms at concrete values.
use rewardcalculator.Base.{some, none, ◌≡◌, refl, [], ◌∷◌}
use rewardcalculator.Base.Int.{pos, negsuc}
use rewardcalculator.HexInt.Uint64.{uint64_to_bytes}
use rewardcalculator.HexInt.Int64.{int64_to_bytes}
use rewardcalculator.HexInt.Big.{big_int_to_bytes, big_int_set_bytes}
use rewardcalculator.HexInt.Text.{hex_int_to_string, hex_int_from_string}
use rewardcalculator.HexInt.Text.RoundTrip.{hex_int_from_string-hex_int_to_string}
use rewardcalculator.HexInt.Big.RoundTrip.{big_int_set_bytes-big_int_to_bytes}

thousand : uint64_to_bytes 1000 ≡ 3 ∷ 232 ∷ []
unfolding uint64_to_bytes
thousand = refl

minus_129 : int64_to_bytes (negsuc 128) ≡ 255 ∷ 127 ∷ []
unfolding int64_to_bytes
minus_129 = refl

-- 128 needs a byte for its sign.
plus_128 : big_int_to_bytes (pos 128) ≡ 0 ∷ 128 ∷ []
unfolding big_int_to_bytes
plus_128 = refl

minus_128 : big_int_to_bytes (negsuc 127) ≡ 128 ∷ []
unfolding big_int_to_bytes
minus_128 = refl

big_int_set_bytes-big_int_to_bytes_example :
    big_int_set_bytes (big_int_to_bytes (negsuc 1000)) ≡ negsuc 1000
big_int_set_bytes-big_int_to_bytes_example = big_int_set_bytes-big_int_to_bytes (negsuc 1000)

-- "-0x3e8"
minus_1000 : hex_int_to_string (negsuc 999) ≡ 45 ∷ 48 ∷ 120 ∷ 51 ∷ 101 ∷ 56 ∷ []
unfolding hex_int_to_string
minus_1000 = refl

-- "0x" alone is no number, "0x0" is zero.
no_digits : hex_int_from_string (48 ∷ 120 ∷ []) ≡ none
unfolding hex_int_from_string
no_digits = refl

hex_int_from_string-hex_int_to_string_example :
    hex_int_from_string (hex_int_to_string (negsuc 999)) ≡ some (negsuc 999)
hex_int_from_string-hex_int_to_string_example = hex_int_from_string-hex_int_to_string (negsuc 999)
