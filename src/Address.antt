-- ===== src/Address.antt =====
-- common/address.go: the 21 bytes of an address, of which the first tells a contract, and its two
-- outside forms. A Go string is a list of its bytes, a slice that may be nil an Option. Elsewhere an
-- address is the number of its bytes.
pub mod RoundTrip
pub mod Number
mod Tests
use rewardcalculator.Base.{
  ℕ, ◌-◌, Bool, true, false, Option, none, some, List, [], ◌∷◌, ◌++◌, ltb, ◌==◌, ◌&&◌,
  if◌then◌else◌, length, take, drop, replicate,
}
use rewardcalculator.Base.Bytes.{Bytes, bytes_beq}
use rewardcalculator.HexInt.Digits.{value}
use rewardcalculator.HexInt.Text.{encode_to_string, decode_string, even_digits}

abbrev pub address_id_bytes : ℕ
address_id_bytes = 20

abbrev pub address_bytes : ℕ
address_bytes = 21

-- `var a Address`
abbrev pub zero_address : Bytes
zero_address = replicate 21 0

-- What a setter makes of an address: an error changes nothing.
pub data SetResult : Type 0 where
  done : Bytes → SetResult
  illegal_argument : SetResult
  illegal_hex : SetResult
  panics : SetResult

-- Go's `copy` into an array from its start.
unfoldable pub copy : Bytes → Bytes → Bytes
copy [] src = []
copy (d ∷ dst) [] = d ∷ dst
copy (d ∷ dst) (s ∷ src) = s ∷ copy dst src

unfoldable pub copy_at : ℕ → Bytes → Bytes → Bytes
unfolding copy
copy_at offset dst src = take offset dst ++ copy (drop offset dst) src

abbrev pub type_byte : Bool → ℕ
type_byte ic = if ic then 1 else 0

abbrev pub set_first : ℕ → Bytes → Bytes
set_first b [] = []
set_first b (x ∷ xs) = b ∷ xs

unfoldable pub set_type_and_id : Bytes → Bool → Option Bytes → SetResult
unfolding copy_at
set_type_and_id a ic none = illegal_argument
set_type_and_id a ic (some id) = done (
    set_first (type_byte ic) (
      if ltb (length id) address_id_bytes
      then copy_at (address_bytes - length id) a id
      else copy_at 1 a id))

-- A slice of no bytes that is not nil has no first byte.
unfoldable pub set_bytes : Bytes → Option Bytes → SetResult
unfolding set_type_and_id
set_bytes a none = illegal_argument
set_bytes a (some []) = panics
set_bytes a (some (b ∷ bs)) =
    if b == 0
    then set_type_and_id a false (some bs)
    else if b == 1
    then set_type_and_id a true (some bs)
    else illegal_argument

-- The error of SetBytes is not looked at.
abbrev pub kept : Bytes → SetResult → Option Bytes
kept a (done b) = some b
kept a illegal_argument = some a
kept a illegal_hex = some a
kept a panics = none

unfoldable pub new_address : Option Bytes → Option Bytes
unfolding set_bytes
new_address b = kept zero_address (set_bytes zero_address b)

unfoldable pub is_contract : Bytes → Bool
is_contract [] = false
is_contract (b ∷ bs) = b == 1

unfoldable pub to_string : Bytes → Bytes
unfolding is_contract encode_to_string
to_string a =
    if is_contract a
    then b'c' ∷ b'x' ∷ encode_to_string (drop 1 a)
    else b'h' ∷ b'x' ∷ encode_to_string (drop 1 a)

-- The kind and the digits of a string.
unfoldable pub kind_and_digits : Bytes → Bool × Bytes
kind_and_digits (a ∷ b ∷ s) =
    if a == b'c' && b == b'x'
    then (true, s)
    else if a == b'h' && b == b'x'
    then (false, s)
    else if a == b'0' && b == b'x'
    then (false, s)
    else (false, a ∷ b ∷ s)
kind_and_digits s = (false, s)

abbrev pub with_id : Bytes → Bool → Option Bytes → SetResult
with_id a ic none = illegal_hex
with_id a ic (some id) = set_type_and_id a ic (some id)

-- hex.DecodeString gives a slice that is not nil.
unfoldable pub set_string : Bytes → Bytes → SetResult
unfolding kind_and_digits even_digits decode_string set_type_and_id
set_string a s =
    let (ic, digits) = kind_and_digits s in with_id a ic (decode_string (even_digits digits))

unfoldable pub equal : Bytes → Bytes → Bool
unfolding bytes_beq
equal a b = bytes_beq a b

unfoldable pub number_of : Bytes → ℕ
unfolding value
number_of a = value 0 a
