-- ===== src/Rlp/Containers.antt =====
-- The header of a container, written and read.
use rewardcalculator.Base.{
  ℕ, ◌+◌, ◌-◌, ◌≤◌, ◌<◌, ◌≡◌, refl, arith, true, false, List, [], ◌∷◌, ◌++◌, length, ltb, leb, ◌==◌,
  if◌then◌else◌, Bool-cases, inl, inr,
}
use mathlib.Core.List.{append_assoc}
use rewardcalculator.Rlp.{
  Read, done, panic, size_to_bytes, bytes_to_size, with_header, write_container, read_full,
  sized_limit, decode_container,
}
use rewardcalculator.Rlp.Decoded.{bytes_to_size-size_to_bytes, read_full-append}

-- The limit that the reader of a container gets, and the stream from the content on.
abbrev pub limited : List ℕ → List ℕ → Read ℕ
limited b rest =
    if ltb (length b) 45
    then done (length b) (b ++ rest)
    else if ltb (length b) 55
    then panic
    else if length b == 55
    then done 0 (b ++ rest)
    else done (length b) (b ++ rest)

empty_size : (stream : List ℕ) → sized_limit (read_full 0 stream) ≡ done 0 stream
unfolding read_full sized_limit bytes_to_size
empty_size stream = let enough : leb 0 (length stream) ≡ true = ground arith in rw enough refl

short :
    (b rest : List ℕ)
    → length b ≤ 55
    → decode_container ((192 + length b) ∷ b ++ rest) ≡ limited b rest
unfolding decode_container
short b rest h =
    let n = length b in
    let high : ltb (192 + n) 192 ≡ false = ground arith in
    let size : 192 + n - 192 ≡ n = omega arith in
    elim (Bool-cases (ltb n 45)) [
      | inl small ↦
          let small' : ltb (192 + n) (192 + 45) ≡ true = ground (arith, small) in
          rw (high, small', small, size) refl
      | inr other ↦
          let other' : ltb (192 + n) (192 + 45) ≡ false = ground (arith, other) in
          elim (Bool-cases (ltb n 55)) [
            | inl lost ↦
                let lost' : ltb (192 + n) (192 + 55) ≡ true = ground (arith, lost) in
                rw (high, other', lost', other, lost) refl
            | inr last ↦
                let last' : ltb (192 + n) (192 + 55) ≡ false = ground (arith, last) in
                let is : (n == 55) ≡ true = ground (arith, h, last) in
                let none_left : 192 + n - (192 + 55) ≡ 0 = ground (arith, h, last) in
                rw (high, other', last', other, last, is, none_left) (empty_size (b ++ rest))
          ]
    ]

sized :
    (n : ℕ) (stream : List ℕ)
    → n < 9223372036854775808
    → sized_limit (done (size_to_bytes n) stream) ≡ done n stream
unfolding sized_limit
sized n stream h =
    let fits : ltb n 9223372036854775808 ≡ true = ground (arith, h) in
    rw (bytes_to_size-size_to_bytes n (omega (arith, h)), fits) refl

long :
    (b rest : List ℕ)
    → length b < 9223372036854775808
    → let sz = size_to_bytes (length b) in
      decode_container ((192 + 55 + length sz) ∷ (sz ++ b) ++ rest) ≡ done (length b) (b ++ rest)
unfolding decode_container
long b rest h =
    let n = length b in
    let sz = size_to_bytes n in
    let high : ltb (247 + length sz) 192 ≡ false = ground arith in
    let no_small : ltb (247 + length sz) (192 + 45) ≡ false = ground arith in
    let no_middle : ltb (247 + length sz) (192 + 55) ≡ false = ground arith in
    let size : 247 + length sz - (192 + 55) ≡ length sz = omega arith in
    let stream : (sz ++ b) ++ rest ≡ sz ++ (b ++ rest) = append_assoc sz b rest in
    rw (high, no_small, no_middle, size, stream, read_full-append sz (b ++ rest))
      (sized n (b ++ rest) h)

-- Of containers whose length is an int: the reader of a container below 45 and above 55 bytes is
-- limited to what was written; from 45 to 54 bytes the decoder panics, at 55 bytes the reader has
-- nothing to read.
decode_container-write_container :
    (b rest : List ℕ)
    → length b < 9223372036854775808
    → decode_container (write_container b ++ rest) ≡ limited b rest
unfolding write_container with_header
decode_container-write_container [] rest h = short [] rest (omega arith)
decode_container-write_container (x ∷ b) rest h = elim (Bool-cases (leb (length (x ∷ b)) 55)) [
  | inl few ↦ rw few (short (x ∷ b) rest (ground (arith, few)))
  | inr many ↦
      let n = length (x ∷ b) in
      let not_short : ltb n 45 ≡ false = ground (arith, many) in
      let not_lost : ltb n 55 ≡ false = ground (arith, many) in
      let not_last : (n == 55) ≡ false = ground (arith, many) in
      rw (many, not_short, not_lost, not_last) (long (x ∷ b) rest h)
]
