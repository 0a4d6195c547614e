-- ===== src/Rlp/Tests.antt =====
-- The codec at concrete values.
use rewardcalculator.Base.{ℕ, zero, suc, ◌≡◌, refl, arith, List, [], ◌∷◌, ◌++◌}
use rewardcalculator.Rlp.{encode_bytes, decode_bytes, panic}
use rewardcalculator.Rlp.Decoded.{decoded, decode_bytes-encode_bytes}

-- A byte from 128 on needs a header.
high_byte : encode_bytes (200 ∷ []) ≡ 129 ∷ 200 ∷ []
unfolding encode_bytes
high_byte = refl

abbrev ones : ℕ → List ℕ
ones zero = []
ones (suc n) = 1 ∷ ones n

-- The shortest string that does not come back.
lost : decode_bytes (encode_bytes (ones 45)) ≡ panic
unfolding decode_bytes encode_bytes
lost = refl

decode_bytes-encode_bytes_example :
    decode_bytes (encode_bytes (ones 60) ++ 7 ∷ []) ≡ decoded (ones 60) (7 ∷ [])
decode_bytes-encode_bytes_example = decode_bytes-encode_bytes (ones 60) (7 ∷ []) (omega arith)
