-- ===== src/HexInt/Int64/RoundTrip.antt =====
-- An int64 comes back from its bytes.
use rewardcalculator.Base.{
  ℕ, zero, suc, ◌+◌, ◌-◌, ◌*◌, ◌/◌, ◌%◌, ◌<◌, ◌≡◌, refl, ap, ◌∙◌, arith, true, false, List, [], ◌∷◌,
  ltb, if◌then◌else◌, Bool-cases, inl, inr, map,
}
use rewardcalculator.Base.Int.{ℤ, pos, negsuc}
use rewardcalculator.Base.Words.{modulus}
use rewardcalculator.HexInt.Uint64.{read_bytes}
use rewardcalculator.HexInt.Digits.{AreBytes, value, pow256, read_bytes-value}
use rewardcalculator.HexInt.Int64.{
  invert, low_byte, shift8, is_last, put_int64, int64_to_bytes, to_int64, bytes_to_int64,
}

-- The digits of a number, with a first one below 128.
half : ℕ → ℕ → List ℕ → List ℕ
half zero n bs = bs
half (suc left) n bs =
    let rest = half left (n / 256) (n % 256 ∷ bs) in if ltb n 128 then n % 256 ∷ bs else rest

put_int64-pos : (left n : ℕ) (bs : List ℕ) → put_int64 left (pos n) bs ≡ half left n bs
unfolding put_int64 half low_byte shift8 is_last
put_int64-pos zero n bs = refl
put_int64-pos (suc left) n bs = rw (put_int64-pos left (n / 256) (n % 256 ∷ bs)) refl

put_int64-negsuc :
    (left n : ℕ) (bs : List ℕ)
    → put_int64 left (negsuc n) (map invert bs) ≡ map invert (half left n bs)
unfolding put_int64 half low_byte shift8 is_last
put_int64-negsuc zero n bs = refl
put_int64-negsuc (suc left) n bs = elim (Bool-cases (ltb n 128)) [
  | inl last ↦ rw last refl
  | inr more ↦ rw more (put_int64-negsuc left (n / 256) (n % 256 ∷ bs))
]

half-AreBytes : (left n : ℕ) (bs : List ℕ) → AreBytes bs → AreBytes (half left n bs)
unfolding half
half-AreBytes zero n bs d = d
half-AreBytes (suc left) n bs d = elim (Bool-cases (ltb n 128)) [
  | inl last ↦ rw last (omega arith, d)
  | inr more ↦ rw more (half-AreBytes left (n / 256) (n % 256 ∷ bs) (omega arith, d))
]

value-half : (left n : ℕ) (bs : List ℕ) → n < pow256 left → value 0 (half left n bs) ≡ value n bs
unfolding value half pow256
value-half zero n bs h = let none_left : n ≡ 0 = omega (arith, h) in rw none_left refl
value-half (suc left) n bs h = elim (Bool-cases (ltb n 128)) [
  | inl last ↦
      let all : n % 256 ≡ n = ground (arith, last) in
      let front : 0 + n ≡ n = omega arith in rw (last, all, front) refl
  | inr more ↦
      let joined : n / 256 * 256 + n % 256 ≡ n = omega arith in
      rw (more, value-half left (n / 256) (n % 256 ∷ bs) (omega (arith, h)), joined) refl
]

-- A first byte below 128.
record Begins (bs : List ℕ) : Type 0 where
  first : ℕ
  rest : List ℕ
  is : bs ≡ first ∷ rest
  small : first < 128

half-Begins : (left n : ℕ) (bs : List ℕ) → 2 * n < pow256 (suc left) → Begins (half (suc left) n bs)
unfolding half pow256
half-Begins zero n bs h =
    let last : ltb n 128 ≡ true = ground (arith, h) in
    rw last (record { first = n % 256; rest = bs; is = refl; small = omega (arith, h) })
half-Begins (suc left) n bs h = elim (Bool-cases (ltb n 128)) [
  | inl last ↦
      rw last (record { first = n % 256; rest = bs; is = refl; small = ground (arith, last) })
  | inr more ↦ rw more (half-Begins left (n / 256) (n % 256 ∷ bs) (omega (arith, h)))
]

invert-invert : (bs : List ℕ) → AreBytes bs → map invert (map invert bs) ≡ bs
invert-invert [] d = refl
invert-invert (b ∷ bs) d =
    let same : 255 - (255 - b) ≡ b = omega (arith, d.0) in rw (same, invert-invert bs d.1) refl

abbrev first_or : ℕ → List ℕ → ℕ
first_or d [] = d
first_or d (b ∷ bs) = b

read-pos :
    (bs : List ℕ) (n : ℕ)
    → Begins bs
    → value 0 bs ≡ n
    → n < 9223372036854775808
    → bytes_to_int64 bs ≡ pos n
unfolding bytes_to_int64 to_int64
read-pos [] n begins is h = cc
read-pos (b ∷ bs) n begins is h =
    let small : ltb b 128 ≡ true =
      (let same : b ≡ begins.first = ap (first_or 0) begins.is in
        ground (arith, same, begins.small)) in
    let read : read_bytes (b ∷ bs) 0 ≡ n =
      read_bytes-value (b ∷ bs) 0 (rw is (omega (arith, h))) ∙ is in
    let low : ltb n 9223372036854775808 ≡ true = ground (arith, h) in
    rw (small, read, to_int64, low) refl

read-negsuc :
    (bs : List ℕ) (n : ℕ)
    → Begins bs
    → AreBytes bs
    → value 0 bs ≡ n
    → n < 9223372036854775808
    → bytes_to_int64 (map invert bs) ≡ negsuc n
unfolding bytes_to_int64 to_int64
read-negsuc [] n begins d is h = cc
read-negsuc (b ∷ bs) n begins d is h =
    let big : ltb (invert b) 128 ≡ false =
      (let same : b ≡ begins.first = ap (first_or 0) begins.is in
        ground (arith, same, begins.small)) in
    let read : read_bytes (map invert (map invert (b ∷ bs))) 0 ≡ n =
      rw (invert-invert (b ∷ bs) d) (read_bytes-value (b ∷ bs) 0 (rw is (omega (arith, h))) ∙ is) in
    let high : ltb (modulus - 1 - n) 9223372036854775808 ≡ false = ground (arith, h) in
    let back : modulus - 1 - (modulus - 1 - n) ≡ n = omega (arith, h) in
    rw (big, read, to_int64, high, back) refl

-- The int64s are the integers from -2 ^ 63 on and below 2 ^ 63.
abbrev pub IsInt64 : ℤ → Type 0
IsInt64 (pos n) = n < 9223372036854775808
IsInt64 (negsuc n) = n < 9223372036854775808

-- An int64, from -2 ^ 63 on and below 2 ^ 63, comes back from its bytes.
bytes_to_int64-int64_to_bytes : (v : ℤ) → IsInt64 v → bytes_to_int64 (int64_to_bytes v) ≡ v
unfolding int64_to_bytes pow256 value bytes_to_int64
bytes_to_int64-int64_to_bytes (pos zero) h = refl
bytes_to_int64-int64_to_bytes (pos (suc n)) h = rw (put_int64-pos 8 (suc n) []) (
    read-pos (half 8 (suc n) []) (suc n) (half-Begins 7 (suc n) [] (omega (arith, h)))
      (value-half 8 (suc n) [] (omega (arith, h))) h)
bytes_to_int64-int64_to_bytes (negsuc n) h = rw (put_int64-negsuc 8 n []) (
    read-negsuc (half 8 n []) n (half-Begins 7 n [] (omega (arith, h))) (half-AreBytes 8 n [] tt)
      (value-half 8 n [] (omega (arith, h))) h)
