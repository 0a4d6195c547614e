-- ===== src/Address/RoundTrip.antt =====
-- An address and its bytes, its string and its number.
use rewardcalculator.Base.{
  ℕ, ◌%◌, ◌≡◌, refl, sym, ap, ◌∙◌, arith, Bool, true, false, some, [], ◌∷◌, ltb, ◌==◌, length, drop,
}
use rewardcalculator.Base.Bytes.{Bytes}
use rewardcalculator.HexInt.Digits.{AreBytes}
use rewardcalculator.HexInt.Text.{encode_to_string, decode_string, even_digits}
use rewardcalculator.HexInt.Text.RoundTrip.{even, decode_string-encode_to_string}
use rewardcalculator.Address.{
  done, copy, copy_at, type_byte, set_type_and_id, set_bytes, kept, new_address, zero_address,
  is_contract, to_string, kind_and_digits, with_id, set_string,
}

-- 21 bytes, of which the first is 0 or 1.
pub record IsAddress (a : Bytes) : Type 0 where
  pub contract : Bool
  pub id : Bytes
  pub is : a ≡ type_byte contract ∷ id
  pub long : length id ≡ 20
  pub are_bytes : AreBytes id

copy-all : (dst src : Bytes) → length dst ≡ length src → copy dst src ≡ src
unfolding copy
copy-all [] [] h = refl
copy-all [] (s ∷ src) h = absurd (omega (arith, h))
copy-all (d ∷ dst) [] h = absurd (omega (arith, h))
copy-all (d ∷ dst) (s ∷ src) h = ap (λ l. s ∷ l) (copy-all dst src (omega (arith, h)))

-- Whatever the 21 bytes were before.
set_type_and_id-whole :
    (b : ℕ) (before : Bytes) (ic : Bool) (id : Bytes)
    → length before ≡ 20
    → length id ≡ 20
    → set_type_and_id (b ∷ before) ic (some id) ≡ done (type_byte ic ∷ id)
unfolding set_type_and_id copy_at
set_type_and_id-whole b before ic id h h' =
    let long : ltb (length id) 20 ≡ false = ground (arith, h') in
    rw (long, copy-all before id (h ∙ sym h')) refl

from_digits :
    (b : ℕ) (before : Bytes) (ic : Bool) (id : Bytes)
    → length before ≡ 20
    → length id ≡ 20
    → AreBytes id
    → with_id (b ∷ before) ic (decode_string (even_digits (encode_to_string id)))
      ≡ done (type_byte ic ∷ id)
unfolding even_digits
from_digits b before ic id h h' d =
    let pairs : (length (encode_to_string id) % 2 == 1) ≡ false = ground (arith, even id) in
    rw (pairs, decode_string-encode_to_string id d) (set_type_and_id-whole b before ic id h h')

by_kind :
    (b : ℕ) (before : Bytes) (ic : Bool) (id : Bytes)
    → length before ≡ 20
    → length id ≡ 20
    → AreBytes id
    → (set_bytes (b ∷ before) (some (type_byte ic ∷ id)) ≡ done (type_byte ic ∷ id))
      × (set_string (b ∷ before) (to_string (type_byte ic ∷ id)) ≡ done (type_byte ic ∷ id))
      × (new_address (some (type_byte ic ∷ id)) ≡ some (type_byte ic ∷ id))
unfolding set_bytes set_string to_string is_contract kind_and_digits new_address
by_kind b before true id h h' d = (
  set_type_and_id-whole b before true id h h',
  from_digits b before true id h h' d,
  ap (kept zero_address) (set_type_and_id-whole 0 (drop 1 zero_address) true id refl h'),
)
by_kind b before false id h h' d = (
  set_type_and_id-whole b before false id h h',
  from_digits b before false id h h' d,
  ap (kept zero_address) (set_type_and_id-whole 0 (drop 1 zero_address) false id refl h'),
)

-- An address from its bytes and from its string, over any 21 bytes, is the address.
pub set_bytes-set_string :
    (b : ℕ) (before : Bytes) (a : Bytes)
    → length before ≡ 20
    → IsAddress a
    → (set_bytes (b ∷ before) (some a) ≡ done a)
      × (set_string (b ∷ before) (to_string a) ≡ done a)
      × (new_address (some a) ≡ some a)
unfolding set_bytes set_string to_string is_contract kind_and_digits new_address
set_bytes-set_string b before a h is =
    rw is.is (by_kind b before is.contract is.id h is.long is.are_bytes)
