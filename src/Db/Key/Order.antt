-- ===== src/Db/Key/Order.antt =====
-- The keys of a bucket are in the order of the numbers in them.
use rewardcalculator.Base.{
  ℕ, zero, suc, ◌+◌, ◌-◌, ◌*◌, ◌/◌, ◌%◌, ◌≤◌, ◌<◌, ◌≡◌, refl, sym, ap, ◌∙◌, arith, true, [], ◌∷◌,
  ◌++◌, length, replicate, length-append, drop-append, ltb, ◌==◌, Bool-cases, inl, inr,
}
use rewardcalculator.Base.Words.{modulus}
use rewardcalculator.Base.Bytes.{Bytes, before, before_prefix, bytes_beq, bytes_beq_iff}
use rewardcalculator.HexInt.Uint64.{
  put_bytes, read_bytes, add_byte, uint64_to_bytes, bytes_to_uint64,
}
use rewardcalculator.HexInt.Uint64.RoundTrip.{bytes_to_uint64-uint64_to_bytes}
use rewardcalculator.HexInt.Digits.{AreBytes, value, pow256, value-bound, read_bytes-value}
use rewardcalculator.Db.Key.{internal_key, id, height_of_key}

-- A number that is larger in front stays larger behind digits of one length.
value-lt :
    (a b : Bytes) (v w : ℕ) → v < w → AreBytes a → length a ≡ length b → value v a < value w b
unfolding value
value-lt [] [] v w h d len = h
value-lt [] (y ∷ b) v w h d len = absurd (omega (arith, len))
value-lt (x ∷ a) [] v w h d len = absurd (omega (arith, len))
value-lt (x ∷ a) (y ∷ b) v w h d len =
    value-lt a b (v * 256 + x) (w * 256 + y) (omega (arith, h, d.0)) d.1 (omega (arith, len))

pub before-value :
    (a b : Bytes) (v : ℕ)
    → before a b ≡ true
    → AreBytes a
    → length a ≡ length b
    → value v a < value v b
unfolding value before
before-value [] [] v h d len = absurd cc
before-value [] (y ∷ b) v h d len = absurd (omega (arith, len))
before-value (x ∷ a) [] v h d len = absurd (omega (arith, len))
before-value (x ∷ a) (y ∷ b) v h d len = elim (Bool-cases (ltb x y)) [
  | inl less ↦
      value-lt a b (v * 256 + x) (v * 256 + y) (ground (arith, less)) d.1 (omega (arith, len))
  | inr other ↦
      let same : x ≡ y = ground (arith, h, other) in
      let rest : before a b ≡ true = ground (arith, h, other) in
      rw same (before-value a b (v * 256 + y) rest d.1 (omega (arith, len)))
]

put_bytes-AreBytes : (left v : ℕ) (bs : Bytes) → AreBytes bs → AreBytes (put_bytes left v bs)
unfolding put_bytes
put_bytes-AreBytes zero v bs d = d
put_bytes-AreBytes (suc left) v bs d = elim (Bool-cases (v / 256 == 0)) [
  | inl last ↦ rw last (omega arith, d)
  | inr more ↦ rw more (put_bytes-AreBytes left (v / 256) (v % 256 ∷ bs) (omega arith, d))
]

length-put_bytes : (left v : ℕ) (bs : Bytes) → length (put_bytes left v bs) ≤ left + length bs
unfolding put_bytes
length-put_bytes zero v bs = omega arith
length-put_bytes (suc left) v bs = elim (Bool-cases (v / 256 == 0)) [
  | inl last ↦ rw last (omega arith)
  | inr more ↦
      let rest = length-put_bytes left (v / 256) (v % 256 ∷ bs) in rw more (omega (arith, rest))
]

uint64_to_bytes-AreBytes : (n : ℕ) → AreBytes (uint64_to_bytes n) × (length (uint64_to_bytes n) ≤ 8)
unfolding uint64_to_bytes
uint64_to_bytes-AreBytes n = elim (Bool-cases (n == 0)) [
  | inl none_set ↦ rw none_set (tt, omega arith)
  | inr some_set ↦ rw some_set (put_bytes-AreBytes 8 n [] tt, length-put_bytes 8 n [])
]

pub zeros-AreBytes : (k : ℕ) (bs : Bytes) → AreBytes bs → AreBytes (replicate k 0 ++ bs)
zeros-AreBytes zero bs d = d
zeros-AreBytes (suc k) bs d = (omega arith, zeros-AreBytes k bs d)

length-replicate : (k : ℕ) → length {A = ℕ} (replicate k 0) ≡ k
length-replicate zero = refl
length-replicate (suc k) = ap suc (length-replicate k)

read_bytes-zeros : (k : ℕ) (bs : Bytes) → read_bytes (replicate k 0 ++ bs) 0 ≡ read_bytes bs 0
unfolding read_bytes add_byte
read_bytes-zeros zero bs = refl
read_bytes-zeros (suc k) bs = read_bytes-zeros k bs

id-AreBytes : (n : ℕ) → AreBytes (id n)
unfolding id
id-AreBytes n = zeros-AreBytes _ (uint64_to_bytes n) (uint64_to_bytes-AreBytes n).0

length-id : (n : ℕ) → length (id n) ≡ 8
unfolding id
length-id n =
    let short = (uint64_to_bytes-AreBytes n).1 in
    length-append (replicate (8 - length (uint64_to_bytes n)) 0) (uint64_to_bytes n)
    ∙ (let zeros = length-replicate (8 - length (uint64_to_bytes n)) in omega (arith, short, zeros))

bytes_to_uint64-id : (n : ℕ) → n < modulus → bytes_to_uint64 (id n) ≡ n
unfolding id bytes_to_uint64
bytes_to_uint64-id n h =
    read_bytes-zeros (8 - length (uint64_to_bytes n)) (uint64_to_bytes n)
    ∙ bytes_to_uint64-uint64_to_bytes n h

-- A uint64 comes back from its key.
pub height_of_key-internal_key :
    (prefix : Bytes) (n : ℕ) → n < modulus → height_of_key prefix (internal_key prefix (id n)) ≡ n
unfolding height_of_key internal_key
height_of_key-internal_key prefix n h =
    ap bytes_to_uint64 (drop-append prefix (id n)) ∙ bytes_to_uint64-id n h

value-id : (n : ℕ) → n < modulus → value 0 (id n) ≡ n
unfolding pow256 bytes_to_uint64
value-id n h =
    let bound : value 0 (id n) < modulus =
      value-bound (id n) 0 0 8 (id-AreBytes n) (omega arith) (omega (arith, length-id n)) in
    sym (read_bytes-value (id n) 0 bound) ∙ bytes_to_uint64-id n h

-- Keys of a bucket that an iterator gives one before the other hold numbers in that order.
pub before-internal_key :
    (prefix : Bytes) (m n : ℕ)
    → m < modulus
    → n < modulus
    → before (internal_key prefix (id m)) (internal_key prefix (id n)) ≡ true
    → m < n
unfolding internal_key
before-internal_key prefix m n hm hn h =
    let digits : before (id m) (id n) ≡ true = sym (before_prefix prefix (id m) (id n)) ∙ h in
    let less : value 0 (id m) < value 0 (id n) =
      before-value (id m) (id n) 0 digits (id-AreBytes m) (length-id m ∙ sym (length-id n)) in
    omega (arith, less, value-id m hm, value-id n hn)

-- Different numbers have different keys.
pub internal_key-differ :
    (prefix : Bytes) (m n : ℕ)
    → m < modulus
    → n < modulus
    → bytes_beq (internal_key prefix (id m)) (internal_key prefix (id n)) ≡ (m == n)
internal_key-differ prefix m n hm hn =
    let there = bytes_beq_iff (internal_key prefix (id m)) (internal_key prefix (id n)) in
    elim (Bool-cases (m == n)) [
      | inl same ↦
          let eq : m ≡ n = ground (arith, same) in
          rw same (there.1 (ap (λ k. internal_key prefix (id k)) eq))
      | inr other ↦
          elim (Bool-cases (bytes_beq (internal_key prefix (id m)) (internal_key prefix (id n)))) [
            | inl collides ↦
                let eq : m ≡ n =
                  sym (height_of_key-internal_key prefix m hm)
                  ∙ ap (height_of_key prefix) (there.0 collides)
                  ∙ height_of_key-internal_key prefix n hn in
                absurd (ground (arith, other, eq))
            | inr apart ↦ apart ∙ sym other
          ]
    ]
