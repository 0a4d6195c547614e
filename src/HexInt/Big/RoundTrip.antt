-- ===== src/HexInt/Big/RoundTrip.antt =====
-- BigIntSetBytes undoes BigIntToBytes.
use rewardcalculator.Base.{
  ℕ, zero, suc, ◌+◌, ◌-◌, ◌*◌, ◌/◌, ◌%◌, ◌≤◌, ◌<◌, ◌≡◌, refl, sym, ap, ◌∙◌, arith, Bool, true,
  false, List, [], ◌∷◌, length, leb, ◌==◌, if◌then◌else◌, Bool-cases, inl, inr,
}
use rewardcalculator.Base.Int.{ℤ, pos, negsuc, sub_ℕ}
use rewardcalculator.HexInt.Uint64.{put_bytes}
use rewardcalculator.HexInt.Digits.{AreBytes, value, pow256, value-put_bytes}
use rewardcalculator.HexInt.Big.{bit_len, bytes, power2, big_int_to_bytes, big_int_set_bytes}
use rewardcalculator.HexInt.Big.Bits.{
  bit_len-below, bit_len-above, below-of_bit_len, full, not_full,
}

-- Bytes with a first one that is not zero.
pub record IsProper (bs : List ℕ) : Type 0 where
  pub first : ℕ
  pub rest : List ℕ
  pub is : bs ≡ first ∷ rest
  pub positive : 0 < first
  pub are_bytes : AreBytes (first ∷ rest)

put_bytes-IsProper :
    (left v : ℕ) (bs : List ℕ)
    → AreBytes bs
    → 0 < v
    → v < pow256 left
    → IsProper (put_bytes left v bs)
unfolding put_bytes pow256
put_bytes-IsProper zero v bs d p h = absurd (omega (arith, p, h))
put_bytes-IsProper (suc left) v bs d p h = elim (Bool-cases (v / 256 == 0)) [
  | inl last ↦ rw last (record {
    first = v % 256;
    rest = bs;
    is = refl;
    positive = ground (arith, last, p);
    are_bytes = (omega arith, d);
  })
  | inr more ↦ rw more (
      put_bytes-IsProper left (v / 256) (v % 256 ∷ bs) (omega arith, d) (ground (arith, more))
        (omega (arith, h)))
]

fits : (n : ℕ) → n < pow256 n
unfolding pow256
fits zero = omega arith
fits (suc n) = omega (arith, fits n)

pub bytes-IsProper : (n : ℕ) → 0 < n → IsProper (bytes n)
unfolding bytes
bytes-IsProper n h =
    let more : (n == 0) ≡ false = ground (arith, h) in
    rw more (put_bytes-IsProper n n [] tt h (fits n))

pub value-bytes : (n : ℕ) → 0 < n → value 0 (bytes n) ≡ n
unfolding bytes value
value-bytes n h =
    let more : (n == 0) ≡ false = ground (arith, h) in rw more (value-put_bytes n n [] (fits n))

-- Read as a number that is not negative.
read_low :
    (n : ℕ) (b : ℕ) (bs : List ℕ)
    → value 0 (b ∷ bs) ≡ n
    → b < 128
    → big_int_set_bytes (b ∷ bs) ≡ pos n
unfolding big_int_set_bytes
read_low n b bs is low = let no : leb 128 b ≡ false = ground (arith, low) in rw (no, is) refl

read_high :
    (n : ℕ) (b : ℕ) (bs : List ℕ)
    → value 0 (b ∷ bs) ≡ n
    → 128 ≤ b
    → big_int_set_bytes (b ∷ bs) ≡ sub_ℕ n (power2 (bit_len n))
unfolding big_int_set_bytes
read_high n b bs is high = let yes : leb 128 b ≡ true = ground (arith, high) in rw (yes, is) refl

-- The number that proper bytes are the digits of.
digits : (n : ℕ) → 0 < n → (p : IsProper (bytes n)) → value 0 (p.first ∷ p.rest) ≡ n
digits n h p = ap (value 0) (sym p.is) ∙ value-bytes n h

number : (n : ℕ) → 0 < n → (p : IsProper (bytes n)) → value p.first p.rest ≡ n
unfolding value
number n h p =
    let front : 0 + p.first ≡ p.first = omega arith in
    ap (λ v. value v p.rest) (sym front) ∙ digits n h p

not_eight :
    (b : ℕ) (bs : List ℕ) → AreBytes (b ∷ bs) → (bit_len (value b bs) % 8 == 0) ≡ false → b < 128
not_eight b bs d h = elim (Bool-cases (leb 128 b)) [
  | inl high ↦ absurd (ground (arith, h, full b bs d (ground (arith, high))))
  | inr low ↦ ground (arith, low)
]

read-pos :
    (n : ℕ)
    → 0 < n
    → big_int_set_bytes (if bit_len n % 8 == 0 then 0 ∷ bytes n else bytes n) ≡ pos n
unfolding value
read-pos n h =
    let p = bytes-IsProper n h in
    let is = number n h p in
    elim (Bool-cases (bit_len n % 8 == 0)) [
      | inl eight ↦ rw eight (read_low n 0 (bytes n) (value-bytes n h) (omega arith))
      | inr other ↦
          let low : p.first < 128 = not_eight p.first p.rest p.are_bytes (rw is other) in
          rw (other, p.is) (read_low n p.first p.rest (digits n h p) low)
    ]

between : (l k n : ℕ) → 8 * l < n → n < 8 + 8 * l → n ≡ 8 * k → 1 ≤ 0
between l k n h h' e = omega (arith, h, h', e)

-- `k` bytes, of which the first has its high bit.
read-high_bit :
    (nb k : ℕ)
    → 0 < nb
    → bit_len nb ≡ 8 * k
    → big_int_set_bytes (bytes nb) ≡ sub_ℕ nb (power2 (8 * k))
unfolding value
read-high_bit nb k h eight =
    let p = bytes-IsProper nb h in
    let is = number nb h p in
    rw p.is (elim (Bool-cases (leb 128 p.first)) [
      | inl high ↦ rw (← eight) (read_high nb p.first p.rest (digits nb h p) (ground (arith, high)))
      | inr low ↦
          let (above, below) =
            not_full p.first p.rest p.are_bytes p.positive (ground (arith, low)) in
          absurd (
            omega (
              arith,
              between (length p.rest) k (bit_len nb) (omega (arith, above, ap bit_len is))
                  (omega (arith, below, ap bit_len is)) eight,
            ))
    ])

sub_below : (p n : ℕ) → n < p → sub_ℕ (p - suc n) p ≡ negsuc n
sub_below p n h =
    let below : leb p (p - suc n) ≡ false = ground (arith, h) in
    let back : p - (p - suc n) - 1 ≡ n = omega (arith, h) in rw (below, back) refl

negative :
    (n j : ℕ)
    → bit_len n / 8 ≡ j
    → big_int_set_bytes (bytes (power2 (8 * suc j) - suc n)) ≡ negsuc n
unfolding power2
negative n j e =
    let half = power2 (7 + 8 * j) in
    let small : n < half = below-of_bit_len (7 + 8 * j) n (omega (arith, e)) in
    let double : power2 (8 * suc j) ≡ 2 * half =
      (let next : 8 * suc j ≡ suc (7 + 8 * j) = omega arith in rw next refl) in
    let nb = power2 (8 * suc j) - suc n in
    let eight : bit_len nb ≡ 8 * suc j =
      (let above = bit_len-above (7 + 8 * j) nb (omega (arith, small, double)) in
        let below = bit_len-below (8 * suc j) nb (omega (arith, small, double)) in
        omega (arith, above, below)) in
    read-high_bit nb (suc j) (omega (arith, small, double)) eight
    ∙ sub_below (power2 (8 * suc j)) n (omega (arith, small, double))

not_negative :
    (n : ℕ) (b : Bool)
    → (n == 0) ≡ b
    → big_int_set_bytes (if b then [] else if bit_len n % 8 == 0 then 0 ∷ bytes n else bytes n)
      ≡ pos n
unfolding big_int_set_bytes
not_negative n true h = let is : n ≡ 0 = ground (arith, h) in rw is refl
not_negative n false h = read-pos n (ground (arith, h))

-- Every integer comes back from its bytes.
pub big_int_set_bytes-big_int_to_bytes : (i : ℤ) → big_int_set_bytes (big_int_to_bytes i) ≡ i
unfolding big_int_to_bytes
big_int_set_bytes-big_int_to_bytes (pos n) = not_negative n (n == 0) refl
big_int_set_bytes-big_int_to_bytes (negsuc n) =
    let shift : (bit_len n + 8) / 8 * 8 ≡ 8 * suc (bit_len n / 8) = omega arith in
    rw shift (negative n (bit_len n / 8) refl)
