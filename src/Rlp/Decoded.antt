-- ===== src/Rlp/Decoded.antt =====
-- What the decoder makes of what the encoder writes.
use rewardcalculator.Base.{
  ℕ, zero, suc, ◌+◌, ◌-◌, ◌/◌, ◌%◌, ◌≤◌, ◌<◌, ◌≡◌, refl, ◌∙◌, arith, true, false, List, [], ◌∷◌,
  ◌++◌, length, ltb, leb, ◌==◌, if◌then◌else◌, Bool-cases, inl, inr, length-append, take-append,
  drop-append,
}
use mathlib.Core.List.{append_assoc}
use rewardcalculator.Base.Words.{modulus}
use rewardcalculator.HexInt.Uint64.{put_bytes}
use rewardcalculator.HexInt.Digits.{value, pow256, value-put_bytes, read_bytes-value}
use rewardcalculator.Rlp.{
  Read, done, panic, size_to_bytes, bytes_to_size, with_header, encode_bytes, read_full,
  read_buffer, sized_bytes, decode_bytes,
}

length-put_bytes : (left v : ℕ) (bs : List ℕ) → length (put_bytes left v bs) ≤ left + length bs
unfolding put_bytes
length-put_bytes zero v bs = omega arith
length-put_bytes (suc left) v bs = elim (Bool-cases (v / 256 == 0)) [
  | inl last ↦ rw last (omega arith)
  | inr more ↦ rw more (omega (arith, length-put_bytes left (v / 256) (v % 256 ∷ bs)))
]

length-size_to_bytes : (s : ℕ) → length (size_to_bytes s) ≤ 8
unfolding size_to_bytes
length-size_to_bytes s = omega (arith, length-put_bytes 8 s [])

pub bytes_to_size-size_to_bytes : (s : ℕ) → s < modulus → bytes_to_size (size_to_bytes s) ≡ s
unfolding size_to_bytes bytes_to_size pow256 value
bytes_to_size-size_to_bytes s h =
    let digits : value 0 (put_bytes 8 s []) ≡ s = value-put_bytes 8 s [] h in
    read_bytes-value (put_bytes 8 s []) 0 (rw digits h) ∙ digits

pub read_full-append : (b rest : List ℕ) → read_full (length b) (b ++ rest) ≡ done b rest
unfolding read_full
read_full-append b rest =
    let enough : leb (length b) (length (b ++ rest)) ≡ true =
      ground (arith, length-append b rest) in
    rw (enough, take-append b rest, drop-append b rest) refl

-- What becomes of `b` in front of `rest`: a string of 45 to 54 bytes is a panic, one of 55 bytes is
-- taken for an empty one, and any other comes back.
abbrev pub decoded : List ℕ → List ℕ → Read (List ℕ)
decoded b rest =
    if ltb (length b) 45
    then done b rest
    else if ltb (length b) 55
    then panic
    else if length b == 55
    then done [] (b ++ rest)
    else done b rest

empty_size : (stream : List ℕ) → sized_bytes (read_full 0 stream) ≡ done [] stream
unfolding read_full sized_bytes read_buffer bytes_to_size
empty_size stream =
    let enough : leb 0 (length stream) ≡ true = ground arith in rw enough (rw enough refl)

short :
    (b rest : List ℕ) → length b ≤ 55 → decode_bytes ((128 + length b) ∷ b ++ rest) ≡ decoded b rest
unfolding decode_bytes
short b rest h =
    let n = length b in
    let high : ltb (128 + n) 128 ≡ false = ground arith in
    let string : leb 192 (128 + n) ≡ false = ground (arith, h) in
    let size : 128 + n - 128 ≡ n = omega arith in
    elim (Bool-cases (ltb n 45)) [
      | inl small ↦
          let small' : ltb (128 + n) (128 + 45) ≡ true = ground (arith, small) in
          rw (high, string, small', small, size, read_full-append b rest) refl
      | inr other ↦
          let other' : ltb (128 + n) (128 + 45) ≡ false = ground (arith, other) in
          elim (Bool-cases (ltb n 55)) [
            | inl lost ↦
                let lost' : ltb (128 + n) (128 + 55) ≡ true = ground (arith, lost) in
                rw (high, string, other', lost', other, lost) refl
            | inr last ↦
                let last' : ltb (128 + n) (128 + 55) ≡ false = ground (arith, last) in
                let is : (n == 55) ≡ true = ground (arith, h, last) in
                let none_left : 128 + n - (128 + 55) ≡ 0 = ground (arith, h, last) in
                rw (high, string, other', last', other, last, is, none_left)
                  (empty_size (b ++ rest))
          ]
    ]

sized :
    (b rest : List ℕ)
    → length b < 9223372036854775808
    → sized_bytes (done (size_to_bytes (length b)) (b ++ rest)) ≡ done b rest
unfolding sized_bytes read_buffer
sized b rest k =
    let fits : ltb (length b) 9223372036854775808 ≡ true = ground (arith, k) in
    rw (bytes_to_size-size_to_bytes (length b) (omega (arith, k)), fits) (read_full-append b rest)

long :
    (b rest : List ℕ)
    → 55 < length b
    → length b < 9223372036854775808
    → let sz = size_to_bytes (length b) in
      decode_bytes ((128 + 55 + length sz) ∷ (sz ++ b) ++ rest) ≡ done b rest
unfolding decode_bytes
long b rest h k =
    let n = length b in
    let sz = size_to_bytes n in
    let few = length-size_to_bytes n in
    let high : ltb (183 + length sz) 128 ≡ false = ground arith in
    let string : leb 192 (183 + length sz) ≡ false = ground (arith, few) in
    let no_small : ltb (183 + length sz) (128 + 45) ≡ false = ground arith in
    let no_middle : ltb (183 + length sz) (128 + 55) ≡ false = ground arith in
    let size : 183 + length sz - (128 + 55) ≡ length sz = omega arith in
    let stream : (sz ++ b) ++ rest ≡ sz ++ (b ++ rest) = append_assoc sz b rest in
    rw (high, string, no_small, no_middle, size, stream, read_full-append sz (b ++ rest))
      (sized b rest k)

strings :
    (x : ℕ) (b rest : List ℕ)
    → length (x ∷ b) < 9223372036854775808
    → decode_bytes (with_header 128 (x ∷ b) ++ rest) ≡ decoded (x ∷ b) rest
unfolding with_header
strings x b rest h = elim (Bool-cases (leb (length (x ∷ b)) 55)) [
  | inl few ↦ rw few (short (x ∷ b) rest (ground (arith, few)))
  | inr many ↦
      let n = length (x ∷ b) in
      let not_short : ltb n 45 ≡ false = ground (arith, many) in
      let not_lost : ltb n 55 ≡ false = ground (arith, many) in
      let not_last : (n == 55) ≡ false = ground (arith, many) in
      rw (many, not_short, not_lost, not_last) (long (x ∷ b) rest (ground (arith, many)) h)
]

-- Of strings whose length is an int: in front of any stream, what is encoded is decoded to itself
-- below 45 and above 55 bytes; from 45 to 54 bytes the decoder panics, at 55 bytes it gives an empty
-- string and leaves the bytes in the stream.
pub decode_bytes-encode_bytes :
    (b rest : List ℕ)
    → length b < 9223372036854775808
    → decode_bytes (encode_bytes b ++ rest) ≡ decoded b rest
unfolding encode_bytes decode_bytes
decode_bytes-encode_bytes [] rest h = short [] rest (omega arith)
decode_bytes-encode_bytes (x ∷ []) rest h = elim (Bool-cases (ltb x 128)) [
  | inl small ↦ rw (small, small) refl
  | inr large ↦ rw large (strings x [] rest h)
]
decode_bytes-encode_bytes (x ∷ y ∷ b) rest h = strings x (y ∷ b) rest h
