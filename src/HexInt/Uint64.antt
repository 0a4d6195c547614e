-- ===== src/HexInt/Uint64.antt =====
-- Uint64ToBytes and BytesToUint64 of common/hexint.go.
pub mod RoundTrip
use rewardcalculator.Base.{
  ℕ, zero, suc, ◌+◌, ◌*◌, ◌/◌, ◌%◌, ◌^◌, ◌≤◌, ◌<◌, ◌≡◌, refl, arith, Bool, true, false, List, [],
  ◌∷◌, length, ◌==◌, if◌then◌else◌, All, Bool-cases, inl, inr,
}
use rewardcalculator.Base.Words.{wrap64, modulus}

-- The loop from index `left` - 1 down, with the bytes that are written already.
unfoldable pub put_bytes : ℕ → ℕ → List ℕ → List ℕ
put_bytes zero v bs = bs
put_bytes (suc left) v bs =
    let rest = put_bytes left (v / 256) (v % 256 ∷ bs) in
    if v / 256 == 0 then v % 256 ∷ bs else rest

unfoldable pub uint64_to_bytes : ℕ → List ℕ
unfolding put_bytes
uint64_to_bytes v = if v == 0 then [] else put_bytes 8 v []

-- `v << 8 | b` in 64 bits.
unfoldable pub add_byte : ℕ → ℕ → ℕ
add_byte v b = wrap64 (v * 256) + b

unfoldable pub read_bytes : List ℕ → ℕ → ℕ
unfolding add_byte
read_bytes [] v = v
read_bytes (b ∷ bs) v = read_bytes bs (add_byte v b)

unfoldable pub bytes_to_uint64 : List ℕ → ℕ
unfolding read_bytes
bytes_to_uint64 bs = read_bytes bs 0
