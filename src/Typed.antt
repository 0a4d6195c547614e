-- ===== src/Typed.antt =====
-- Values of any type as typed objects: EncodeAny and DecodeAny of common/codec/typed.go with the
-- TypeCodec of common/codec.go. A map is a list of its entries in some order; an integer type of Go
-- stands for its values.
pub mod RoundTrip
pub mod Delegations
mod Tests
use rewardcalculator.Base.{
  ℕ, ◌-◌, ◌%◌, Bool, true, false, Option, none, some, List, ltb, ◌==◌, if◌then◌else◌,
}
use rewardcalculator.Base.Int.{ℤ, pos, negsuc}
use rewardcalculator.Base.Words.{modulus}
use rewardcalculator.Base.Bytes.{Bytes}
use rewardcalculator.HexInt.Int64.{int64_to_bytes}
use rewardcalculator.HexInt.Big.{big_int_to_bytes, big_int_set_bytes}
use rewardcalculator.Address.{new_address}

-- What TypeCodec takes, and what it does not.
pub data Custom : Type 0 where
  address : Bytes → Custom
  big_int : ℤ → Custom
  hex_int : ℤ → Custom
  -- int, int16, int32, int64, uint16 and uint32
  int64 : ℤ → Custom
  uint : ℕ → Custom
  uint64 : ℕ → Custom
  unknown_type : Custom

-- `Type` and `Object` of a TypedObj, which may be a nil pointer.
mutual
  pub data TypedObj : Type 0 where
    nil_obj : TypedObj
    typed : ℕ → Object → TypedObj

  pub data Object : Type 0 where
    no_object : Object
    text : Bytes → Object
    raw : Bytes → Object
    objs : TypedList → Object
    fields : TypedFields → Object

  pub data TypedList : Type 0 where
    end : TypedList
    obj : TypedObj → TypedList → TypedList

  pub data TypedFields : Type 0 where
    no_field : TypedFields
    field : Bytes → TypedObj → TypedFields → TypedFields

-- `interface{}`
mutual
  pub data Any : Type 0 where
    nil : Any
    string : Bytes → Any
    byte_slice : Bytes → Any
    list : Items → Any
    dict : Entries → Any
    typed_obj : TypedObj → Any
    custom : Custom → Any
    -- a list or a map of typed objects
    untyped : Object → Any

  pub data Items : Type 0 where
    empty : Items
    item : Any → Items → Items

  pub data Entries : Type 0 where
    no_entry : Entries
    entry : Bytes → Any → Entries → Entries

abbrev pub type_nil : ℕ
type_nil = 0

abbrev pub type_dict : ℕ
type_dict = 1

abbrev pub type_list : ℕ
type_list = 2

abbrev pub type_bytes : ℕ
type_bytes = 3

abbrev pub type_string : ℕ
type_string = 4

abbrev pub type_address : ℕ
type_address = 10

abbrev pub type_int : ℕ
type_int = 11

-- `int64` of a uint
unfoldable pub int64_of_uint : ℕ → ℤ
int64_of_uint n = if ltb n 9223372036854775808 then pos n else negsuc (modulus - n - 1)

-- typeCodec.Encode
unfoldable pub encode : Custom → Option (ℕ × Bytes)
unfolding int64_of_uint big_int_to_bytes int64_to_bytes
encode (address a) = some (type_address, a)
encode (big_int i) = some (type_int, big_int_to_bytes i)
encode (hex_int i) = some (type_int, big_int_to_bytes i)
encode (int64 i) = some (type_int, int64_to_bytes i)
encode (uint n) = some (type_int, int64_to_bytes (int64_of_uint n))
encode (uint64 n) = some (type_int, big_int_to_bytes (pos n))
encode unknown_type = none

-- What a decoder gives. A type assertion that does not hold panics.
pub data Decoded {ℓ} (A : Type ℓ) : Type ℓ where
  ok : A → Decoded A
  fails : Decoded A
  panics : Decoded A

abbrev pub or_panics : Option Bytes → Decoded Any
or_panics none = panics
or_panics (some a) = ok (custom (address a))

-- typeCodec.Decode
unfoldable pub decode : ℕ → Bytes → Decoded Any
unfolding new_address big_int_set_bytes
decode tag bs =
    if tag == type_address
    then or_panics (new_address (some bs))
    else if tag == type_int
    then ok (custom (hex_int (big_int_set_bytes bs)))
    else fails

abbrev pub of_custom : Option (ℕ × Bytes) → Option TypedObj
of_custom none = none
of_custom (some (tag, bs)) = some (typed tag (raw bs))

abbrev pub of_list : Option TypedList → Option TypedObj
of_list none = none
of_list (some l) = some (typed type_list (objs l))

abbrev pub of_fields : Option TypedFields → Option TypedObj
of_fields none = none
of_fields (some m) = some (typed type_dict (fields m))

abbrev pub and_obj : Option TypedObj → Option TypedList → Option TypedList
and_obj (some o) (some l) = some (obj o l)
and_obj o l = none

abbrev pub and_field : Bytes → Option TypedObj → Option TypedFields → Option TypedFields
and_field k (some o) (some m) = some (field k o m)
and_field k o m = none

unfoldable mutual
  unfolding encode

  pub encode_any : Any → Option TypedObj
  encode_any nil = some (typed type_nil no_object)
  encode_any (string s) = some (typed type_string (text s))
  encode_any (byte_slice bs) = some (typed type_bytes (raw bs))
  encode_any (list l) = of_list (encode_items l)
  encode_any (dict m) = of_fields (encode_entries m)
  encode_any (typed_obj o) = some o
  encode_any (custom c) = of_custom (encode c)
  encode_any (untyped o) = none

  pub encode_items : Items → Option TypedList
  encode_items empty = some end
  encode_items (item a l) = and_obj (encode_any a) (encode_items l)

  pub encode_entries : Entries → Option TypedFields
  encode_entries no_entry = some no_field
  encode_entries (entry k a m) = and_field k (encode_any a) (encode_entries m)

-- `to.Object` of a string or bytes, as it is.
unfoldable pub any_object : Object → Any
any_object no_object = nil
any_object (text s) = string s
any_object (raw bs) = byte_slice bs
any_object (objs l) = untyped (objs l)
any_object (fields m) = untyped (fields m)

abbrev pub and_item : Decoded Any → Decoded Items → Decoded Items
and_item (ok a) (ok l) = ok (item a l)
and_item (ok a) fails = fails
and_item (ok a) panics = panics
and_item fails l = fails
and_item panics l = panics

abbrev pub and_entry : Bytes → Decoded Any → Decoded Entries → Decoded Entries
and_entry k (ok a) (ok m) = ok (entry k a m)
and_entry k (ok a) fails = fails
and_entry k (ok a) panics = panics
and_entry k fails m = fails
and_entry k panics m = panics

abbrev pub a_list : Decoded Items → Decoded Any
a_list (ok l) = ok (list l)
a_list fails = fails
a_list panics = panics

abbrev pub a_dict : Decoded Entries → Decoded Any
a_dict (ok m) = ok (dict m)
a_dict fails = fails
a_dict panics = panics

unfoldable mutual
  unfolding decode any_object

  pub decode_any : TypedObj → Decoded Any
  decode_any nil_obj = ok nil
  decode_any (typed t o) =
      let l = decode_list o in
      let m = decode_dict o in
      let c = decode_custom t o in
      if t == type_nil
      then ok nil
      else if t == type_string
      then ok (any_object o)
      else if t == type_bytes
      then ok (any_object o)
      else if t == type_dict
      then a_dict m
      else if t == type_list
      then a_list l
      else c

  -- `to.Object.([]*TypedObj)`
  pub decode_list : Object → Decoded Items
  decode_list (objs l) = decode_objs l
  decode_list o = panics

  -- `to.Object.(map[string]*TypedObj)`
  pub decode_dict : Object → Decoded Entries
  decode_dict (fields m) = decode_fields m
  decode_dict o = panics

  -- `to.Object.([]byte)`
  pub decode_custom : ℕ → Object → Decoded Any
  decode_custom t (raw bs) = decode t bs
  decode_custom t o = panics

  pub decode_objs : TypedList → Decoded Items
  decode_objs end = ok empty
  decode_objs (obj o l) = and_item (decode_any o) (decode_objs l)

  pub decode_fields : TypedFields → Decoded Entries
  decode_fields no_field = ok no_entry
  decode_fields (field k o m) = and_entry k (decode_any o) (decode_fields m)
