-- ===== src/Rlp.antt =====
-- common/codec/rlp.go: the byte strings and the headers of containers of the RLP codec. The stream
-- is a list of bytes, numbers below 256; writing to it does not fail.
pub mod Decoded
pub mod Containers
mod Tests
use rewardcalculator.Base.{
  ℕ, zero, suc, ◌+◌, ◌-◌, Bool, Option, none, some, List, [], ◌∷◌, ◌++◌, length, take, drop, ltb,
  leb, ◌==◌, if◌then◌else◌,
}
use rewardcalculator.HexInt.Uint64.{put_bytes, read_bytes}

-- The loops are those of common/hexint.go; the number 0 has one byte here.
unfoldable pub size_to_bytes : ℕ → List ℕ
unfolding put_bytes
size_to_bytes s = put_bytes 8 s []

unfoldable pub bytes_to_size : List ℕ → ℕ
unfolding read_bytes
bytes_to_size b = read_bytes b 0

-- The part that byte strings and containers share: the header and what it is for.
unfoldable pub with_header : ℕ → List ℕ → List ℕ
unfolding size_to_bytes
with_header offset b =
    let sz = size_to_bytes (length b) in
    if leb (length b) 55 then (offset + length b) ∷ b else (offset + 55 + length sz) ∷ sz ++ b

unfoldable pub encode_bytes : List ℕ → List ℕ
unfolding with_header
encode_bytes [] = 128 ∷ []
encode_bytes (x ∷ []) = if ltb x 128 then x ∷ [] else with_header 128 (x ∷ [])
encode_bytes (x ∷ y ∷ b) = with_header 128 (x ∷ y ∷ b)

unfoldable pub write_container : List ℕ → List ℕ
unfolding with_header
write_container [] = 192 ∷ []
write_container (x ∷ b) = with_header 192 (x ∷ b)

-- What a read gives: a value and the stream behind it, an error of the reader, the error
-- "IllegalDataDecoding", or a run-time panic.
pub data Read (A : Type 0) : Type 0 where
  done : A → List ℕ → Read A
  eof : Read A
  illegal : Read A
  panic : Read A

-- io.ReadFull into a buffer of a size.
unfoldable pub read_full : ℕ → List ℕ → Read (List ℕ)
read_full n stream = if leb n (length stream) then done (take n stream) (drop n stream) else eof

-- `make` of a slice panics at a size that is negative as an int.
unfoldable pub read_buffer : ℕ → List ℕ → Read (List ℕ)
unfolding read_full
read_buffer size stream = if ltb size 9223372036854775808 then read_full size stream else panic

-- The bytes behind the size in the header.
unfoldable pub sized_bytes : Read (List ℕ) → Read (List ℕ)
unfolding read_buffer bytes_to_size
sized_bytes (done sz stream) = read_buffer (bytes_to_size sz) stream
sized_bytes eof = eof
sized_bytes illegal = illegal
sized_bytes panic = panic

-- `055` is 45. The slice of the header has a negative size from there up to 54 bytes.
unfoldable pub decode_bytes : List ℕ → Read (List ℕ)
unfolding read_full sized_bytes
decode_bytes [] = eof
decode_bytes (header ∷ stream) =
    if ltb header 128
    then done (header ∷ []) stream
    else if leb 192 header
    then illegal
    else if ltb header (128 + 45)
    then read_full (header - 128) stream
    else if ltb header (128 + 55)
    then panic
    else sized_bytes (read_full (header - (128 + 55)) stream)

-- The limit of the reader for the container; it is an int64, and a negative one reads nothing.
unfoldable pub sized_limit : Read (List ℕ) → Read ℕ
unfolding bytes_to_size
sized_limit (done sz stream) =
    let size = bytes_to_size sz in done (if ltb size 9223372036854775808 then size else 0) stream
sized_limit eof = eof
sized_limit illegal = illegal
sized_limit panic = panic

unfoldable pub decode_container : List ℕ → Read ℕ
unfolding read_full sized_limit
decode_container [] = eof
decode_container (header ∷ stream) =
    if ltb header 192
    then illegal
    else if ltb header (192 + 45)
    then done (header - 192) stream
    else if ltb header (192 + 55)
    then panic
    else sized_limit (read_full (header - (192 + 55)) stream)
