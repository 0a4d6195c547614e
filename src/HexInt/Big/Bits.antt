-- ===== src/HexInt/Big/Bits.antt =====
-- The number of bits of a number, from its bounds and from its bytes.
use rewardcalculator.Base.{
  ℕ, zero, suc, ◌+◌, ◌*◌, ◌/◌, ◌≤◌, ◌<◌, ◌≡◌, refl, arith, true, false, List, [], ◌∷◌, length, ◌==◌,
  leb, Bool-cases, inl, inr,
}
use rewardcalculator.HexInt.Digits.{AreBytes, value}
use rewardcalculator.HexInt.Big.{count_bits, bit_len, power2}

-- More rounds change nothing.
count_bits-rounds : (r s n : ℕ) → n ≤ r → n ≤ s → count_bits r n ≡ count_bits s n
unfolding count_bits
count_bits-rounds zero zero n h k = refl
count_bits-rounds zero (suc s) n h k =
    let none_left : (n == 0) ≡ true = ground (arith, h) in rw none_left refl
count_bits-rounds (suc r) zero n h k =
    let none_left : (n == 0) ≡ true = ground (arith, k) in rw none_left refl
count_bits-rounds (suc r) (suc s) n h k = elim (Bool-cases (n == 0)) [
  | inl none_left ↦ rw none_left refl
  | inr more ↦
      let half : n / 2 ≤ r = ground (arith, more, h) in
      let half' : n / 2 ≤ s = ground (arith, more, k) in
      rw (more, count_bits-rounds r s (n / 2) half half') refl
]

bit_len-half : (n : ℕ) → 0 < n → bit_len n ≡ suc (bit_len (n / 2))
unfolding bit_len count_bits
bit_len-half zero h = absurd (omega (arith, h))
bit_len-half (suc m) h =
    let more : (suc m == 0) ≡ false = ground arith in
    rw (more, count_bits-rounds m (suc m / 2) (suc m / 2) (omega arith) (omega arith)) refl

power2-positive : (k : ℕ) → 0 < power2 k
unfolding power2
power2-positive zero = omega arith
power2-positive (suc k) = omega (arith, power2-positive k)

-- A number has as many bits as the least power of two above it.
pub bit_len-below : (k n : ℕ) → n < power2 k → bit_len n ≤ k
unfolding power2 bit_len count_bits
bit_len-below zero n h = let none_left : n ≡ 0 = omega (arith, h) in rw none_left (omega arith)
bit_len-below (suc k) n h = elim (Bool-cases (n == 0)) [
  | inl none_left ↦ let is : n ≡ 0 = ground (arith, none_left) in rw is (omega arith)
  | inr more ↦
      rw (bit_len-half n (ground (arith, more)))
        (omega (arith, bit_len-below k (n / 2) (omega (arith, h))))
]

pub bit_len-above : (k n : ℕ) → power2 k ≤ n → k < bit_len n
unfolding power2
bit_len-above zero n h = rw (bit_len-half n (omega (arith, h))) (omega arith)
bit_len-above (suc k) n h =
    let rest = bit_len-above k (n / 2) (omega (arith, h)) in
    rw (bit_len-half n (omega (arith, rest, h, power2-positive k))) (omega (arith, rest))

pub below-of_bit_len : (k n : ℕ) → bit_len n ≤ k → n < power2 k
below-of_bit_len k n h = elim (Bool-cases (leb (power2 k) n)) [
  | inl above ↦ absurd (omega (arith, h, bit_len-above k n (ground (arith, above))))
  | inr below ↦ ground (arith, below)
]

-- Bytes behind a number shift its bounds.
value-above :
    (bs : List ℕ) (v k m : ℕ) → power2 k ≤ v → k + 8 * length bs ≡ m → power2 m ≤ value v bs
unfolding value power2
value-above [] v k m h total = let all : k ≡ m = omega (arith, total) in rw (← all) h
value-above (b ∷ bs) v k m h total =
    value-above bs (v * 256 + b) (suc (suc (suc (suc (suc (suc (suc (suc k)))))))) m
      (omega (arith, h)) (omega (arith, total))

value-below :
    (bs : List ℕ) (v k m : ℕ)
    → AreBytes bs
    → v < power2 k
    → k + 8 * length bs ≡ m
    → value v bs < power2 m
unfolding value power2
value-below [] v k m d h total = let all : k ≡ m = omega (arith, total) in rw (← all) h
value-below (b ∷ bs) v k m d h total =
    value-below bs (v * 256 + b) (suc (suc (suc (suc (suc (suc (suc (suc k)))))))) m d.1
      (omega (arith, d.0, h)) (omega (arith, total))

-- A number whose first byte has its high bit is all full bytes long, and no other is.
pub full :
    (b : ℕ) (bs : List ℕ) → AreBytes (b ∷ bs) → 128 ≤ b → bit_len (value b bs) ≡ 8 + 8 * length bs
unfolding power2
full b bs d h =
    let above =
      bit_len-above (7 + 8 * length bs) (value b bs)
        (value-above bs b 7 (7 + 8 * length bs) h refl) in
    let below =
      bit_len-below (8 + 8 * length bs) (value b bs)
        (value-below bs b 8 (8 + 8 * length bs) d.1 d.0 refl) in
    omega (arith, above, below)

pub not_full :
    (b : ℕ) (bs : List ℕ)
    → AreBytes (b ∷ bs)
    → 0 < b
    → b < 128
    → (8 * length bs < bit_len (value b bs)) × (bit_len (value b bs) < 8 + 8 * length bs)
unfolding power2
not_full b bs d p h = (
  bit_len-above (8 * length bs) (value b bs) (value-above bs b 0 (8 * length bs) p (omega arith)),
  (let below =
        bit_len-below (7 + 8 * length bs) (value b bs)
          (value-below bs b 7 (7 + 8 * length bs) d.1 h refl) in
      omega (arith, below)),
)
