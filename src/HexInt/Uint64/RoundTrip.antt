-- ===== src/HexInt/Uint64/RoundTrip.antt =====
-- Uint64ToBytes and BytesToUint64 undo each other.
use rewardcalculator.Base.{
  ℕ, suc, ◌+◌, ◌-◌, ◌≤◌, ◌<◌, ◌≡◌, refl, ◌∙◌, arith, false, List, [], ◌∷◌, length, ◌==◌, Bool-cases,
  inl, inr,
}
use rewardcalculator.Base.Words.{modulus}
use rewardcalculator.HexInt.Uint64.{put_bytes, uint64_to_bytes, bytes_to_uint64}
use rewardcalculator.HexInt.Digits.{
  AreBytes, IsShortest, value, pow256, value-grows, value-put_bytes, read_bytes-value, value-bound,
  byte-bound, put_bytes-front,
}

-- A number below 2 ^ 64 comes back from its bytes.
pub bytes_to_uint64-uint64_to_bytes :
    (v : ℕ) → v < modulus → bytes_to_uint64 (uint64_to_bytes v) ≡ v
unfolding uint64_to_bytes bytes_to_uint64 pow256 value
bytes_to_uint64-uint64_to_bytes v h = elim (Bool-cases (v == 0)) [
  | inl none_set ↦ let is : v ≡ 0 = ground (arith, none_set) in rw (none_set, is) refl
  | inr some_set ↦
      let digits : value 0 (put_bytes 8 v []) ≡ v = value-put_bytes 8 v [] h in
      rw some_set (read_bytes-value (put_bytes 8 v []) 0 (rw digits h) ∙ digits)
]

-- Up to 8 bytes with no zero in front come back from the number that they are read as, which is a uint64.
uint64_to_bytes-bytes_to_uint64 :
    (bs : List ℕ)
    → AreBytes bs
    → length bs ≤ 8
    → IsShortest bs
    → (uint64_to_bytes (bytes_to_uint64 bs) ≡ bs) × (bytes_to_uint64 bs < modulus)
unfolding uint64_to_bytes bytes_to_uint64 value pow256
uint64_to_bytes-bytes_to_uint64 [] d short first = (refl, omega arith)
uint64_to_bytes-bytes_to_uint64 (b ∷ bs) d short first =
    let left = 7 - length bs in
    let bound : value b bs < modulus =
      value-bound bs b (suc left) 8 d.1 (byte-bound b left d.0) (omega (arith, short)) in
    let front : 0 + b ≡ b = omega arith in
    let read : bytes_to_uint64 (b ∷ bs) ≡ value b bs = rw front (read_bytes-value bs b bound) in
    let nonzero : (value b bs == 0) ≡ false = ground (arith, value-grows bs b, first) in
    let written : put_bytes 8 (value b bs) [] ≡ b ∷ bs =
      put_bytes-front b bs left 8 d first (omega (arith, short)) in
    rw (read, nonzero) (written, bound)
