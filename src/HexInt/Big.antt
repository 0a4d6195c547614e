-- ===== src/HexInt/Big.antt =====
-- BigIntToBytes and BigIntSetBytes of common/hexint.go, with what they use of math/big.
pub mod Bits
pub mod RoundTrip
use rewardcalculator.Base.{
  ℕ, zero, suc, ◌+◌, ◌-◌, ◌*◌, ◌/◌, ◌%◌, List, [], ◌∷◌, leb, ◌==◌, if◌then◌else◌,
}
use rewardcalculator.Base.Int.{ℤ, pos, negsuc, sub_ℕ}
use rewardcalculator.HexInt.Uint64.{put_bytes}
use rewardcalculator.HexInt.Digits.{value}

-- The bits one by one, in a number of rounds that is at least the number itself.
unfoldable pub count_bits : ℕ → ℕ → ℕ
count_bits zero n = 0
count_bits (suc rounds) n = let rest = count_bits rounds (n / 2) in if n == 0 then 0 else suc rest

-- math/big: `BitLen`, of the absolute value.
unfoldable pub bit_len : ℕ → ℕ
unfolding count_bits
bit_len n = count_bits n n

-- math/big: `Bytes`, of the absolute value, big-endian with no zero in front.
unfoldable pub bytes : ℕ → List ℕ
unfolding put_bytes
bytes n = if n == 0 then [] else put_bytes n n []

-- math/big: `SetBit` of the number 0.
unfoldable pub power2 : ℕ → ℕ
power2 zero = 1
power2 (suc n) = 2 * power2 n

-- `negsuc n` is -(n + 1), and `ti` is -n.
unfoldable pub big_int_to_bytes : ℤ → List ℕ
unfolding bit_len bytes power2
big_int_to_bytes (pos n) =
    if n == 0 then [] else if bit_len n % 8 == 0 then 0 ∷ bytes n else bytes n
big_int_to_bytes (negsuc n) = bytes (power2 ((bit_len n + 8) / 8 * 8) - suc n)

unfoldable pub big_int_set_bytes : List ℕ → ℤ
unfolding value bit_len power2
big_int_set_bytes [] = pos 0
big_int_set_bytes (b ∷ bs) =
    let i = value 0 (b ∷ bs) in if leb 128 b then sub_ℕ i (power2 (bit_len i)) else pos i
