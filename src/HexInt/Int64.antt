-- ===== src/HexInt/Int64.antt =====
-- Int64ToBytes and BytesToInt64 of common/hexint.go. An int64 is an integer, its bits are those of
-- two's complement: `negsuc n` has the bits of `n` inverted.
pub mod RoundTrip
use rewardcalculator.Base.{
  ℕ, zero, suc, ◌-◌, ◌/◌, ◌%◌, Bool, List, [], ◌∷◌, ltb, if◌then◌else◌, map,
}
use rewardcalculator.Base.Int.{ℤ, pos, negsuc}
use rewardcalculator.Base.Words.{modulus}
use rewardcalculator.HexInt.Uint64.{read_bytes}

-- `b ^ 0xff`
abbrev pub invert : ℕ → ℕ
invert b = 255 - b

-- `byte(v & 0xff)`
unfoldable pub low_byte : ℤ → ℕ
low_byte (pos n) = n % 256
low_byte (negsuc n) = invert (n % 256)

-- `v >> 8`
unfoldable pub shift8 : ℤ → ℤ
shift8 (pos n) = pos (n / 256)
shift8 (negsuc n) = negsuc (n / 256)

-- `v & mask == target`: the bits from the seventh on are all the sign of `v`, which no shift
-- changes.
unfoldable pub is_last : ℤ → Bool
is_last (pos n) = ltb n 128
is_last (negsuc n) = ltb n 128

unfoldable pub put_int64 : ℕ → ℤ → List ℕ → List ℕ
unfolding low_byte shift8 is_last
put_int64 zero v bs = bs
put_int64 (suc left) v bs =
    let rest = put_int64 left (shift8 v) (low_byte v ∷ bs) in
    if is_last v then low_byte v ∷ bs else rest

unfoldable pub int64_to_bytes : ℤ → List ℕ
unfolding put_int64
int64_to_bytes (pos zero) = []
int64_to_bytes v = put_int64 8 v []

-- The int64 with the bits of a word.
unfoldable pub to_int64 : ℕ → ℤ
to_int64 w = if ltb w 9223372036854775808 then pos w else negsuc (modulus - 1 - w)

-- `-v - 1` inverts the bits of `v`.
unfoldable pub bytes_to_int64 : List ℕ → ℤ
unfolding to_int64
bytes_to_int64 [] = pos 0
bytes_to_int64 (b ∷ bs) =
    if ltb b 128
    then to_int64 (read_bytes (b ∷ bs) 0)
    else to_int64 (modulus - 1 - read_bytes (map invert (b ∷ bs)) 0)
