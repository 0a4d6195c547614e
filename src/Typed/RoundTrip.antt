-- ===== src/Typed/RoundTrip.antt =====
-- A value that is encoded and decoded.
use rewardcalculator.Base.{◌≡◌, refl, ap, Option, some}
use rewardcalculator.Base.Int.{ℤ, pos}
use rewardcalculator.HexInt.Big.{big_int_to_bytes}
use rewardcalculator.HexInt.Big.RoundTrip.{big_int_set_bytes-big_int_to_bytes}
use rewardcalculator.Address.{zero_address}
use rewardcalculator.Address.RoundTrip.{IsAddress, set_bytes-set_string}
use rewardcalculator.Base.{drop}
use rewardcalculator.Typed.{
  Custom, address, big_int, hex_int, int64, uint, uint64, unknown_type, TypedObj, typed, raw, objs,
  fields, TypedList, end, obj, TypedFields, no_field, field, Any, nil, string, byte_slice, list,
  dict, typed_obj, custom, untyped, Items, empty, item, Entries, no_entry, entry, encode, ok,
  or_panics, decode, of_custom, of_list, of_fields, encode_any, encode_items, encode_entries,
  any_object, a_list, a_dict, decode_any, decode_list, decode_dict, decode_custom, decode_objs,
  decode_fields,
}

-- Addresses and integers of any size; not the types that go by int64.
abbrev pub IsPlainCustom : Custom → Type 0
IsPlainCustom (address a) = IsAddress a
IsPlainCustom (big_int i) = Unit
IsPlainCustom (hex_int i) = Unit
IsPlainCustom (uint64 n) = Unit
IsPlainCustom (int64 i) = ⊥
IsPlainCustom (uint n) = ⊥
IsPlainCustom unknown_type = ⊥

unfoldable mutual
  -- No typed objects, and such integers and addresses only.
  pub IsPlain : Any → Type 0
  IsPlain nil = Unit
  IsPlain (string s) = Unit
  IsPlain (byte_slice bs) = Unit
  IsPlain (list l) = ArePlain l
  IsPlain (dict m) = ArePlainEntries m
  IsPlain (typed_obj o) = ⊥
  IsPlain (custom c) = IsPlainCustom c
  IsPlain (untyped o) = ⊥

  pub ArePlain : Items → Type 0
  ArePlain empty = Unit
  ArePlain (item a l) = IsPlain a × ArePlain l

  pub ArePlainEntries : Entries → Type 0
  ArePlainEntries no_entry = Unit
  ArePlainEntries (entry k a m) = IsPlain a × ArePlainEntries m

-- Every integer comes back as a HexInt.
abbrev pub as_hex_int : Custom → Custom
as_hex_int (big_int i) = hex_int i
as_hex_int (uint64 n) = hex_int (pos n)
as_hex_int c = c

unfoldable mutual
  pub with_hex_ints : Any → Any
  with_hex_ints (list l) = list (items_with_hex_ints l)
  with_hex_ints (dict m) = dict (entries_with_hex_ints m)
  with_hex_ints (custom c) = custom (as_hex_int c)
  with_hex_ints a = a

  pub items_with_hex_ints : Items → Items
  items_with_hex_ints empty = empty
  items_with_hex_ints (item a l) = item (with_hex_ints a) (items_with_hex_ints l)

  pub entries_with_hex_ints : Entries → Entries
  entries_with_hex_ints no_entry = no_entry
  entries_with_hex_ints (entry k a m) = entry k (with_hex_ints a) (entries_with_hex_ints m)

-- What was encoded, and that it is decoded to a value.
pub record Encoded (o : Option TypedObj) (a : Any) : Type 0 where
  pub result : TypedObj
  pub is : o ≡ some result
  pub decodes : decode_any result ≡ ok a

record EncodedList (o : Option TypedList) (a : Items) : Type 0 where
  result : TypedList
  is : o ≡ some result
  decodes : decode_objs result ≡ ok a

record EncodedFields (o : Option TypedFields) (a : Entries) : Type 0 where
  result : TypedFields
  is : o ≡ some result
  decodes : decode_fields result ≡ ok a

integer : (i : ℤ) → decode_any (typed 11 (raw (big_int_to_bytes i))) ≡ ok (custom (hex_int i))
unfolding decode_any decode_custom decode
integer i = rw (big_int_set_bytes-big_int_to_bytes i) refl

custom-Encoded :
    (c : Custom) → IsPlainCustom c → Encoded (of_custom (encode c)) (custom (as_hex_int c))
unfolding encode decode_any decode_custom decode
custom-Encoded (address a) is = record {
  result = typed 10 (raw a);
  is = refl;
  decodes = ap or_panics (set_bytes-set_string 0 (drop 1 zero_address) a refl is).2;
}
custom-Encoded (big_int i) is = record { result = _; is = refl; decodes = integer i }
custom-Encoded (hex_int i) is = record { result = _; is = refl; decodes = integer i }
custom-Encoded (uint64 n) is = record { result = _; is = refl; decodes = integer (pos n) }
custom-Encoded (int64 i) is = absurd is
custom-Encoded (uint n) is = absurd is
custom-Encoded unknown_type is = absurd is

mutual
  unfolding encode_any decode_any decode_list decode_dict decode_custom decode_objs decode_fields
      any_object IsPlain with_hex_ints

  any-Encoded : (a : Any) → IsPlain a → Encoded (encode_any a) (with_hex_ints a)
  any-Encoded nil h = record { result = _; is = refl; decodes = refl }
  any-Encoded (string s) h = record { result = _; is = refl; decodes = refl }
  any-Encoded (byte_slice bs) h = record { result = _; is = refl; decodes = refl }
  any-Encoded (list l) h =
      let inner = items-Encoded l h in
      record {
        result = typed 2 (objs inner.result);
        is = ap of_list inner.is;
        decodes = ap a_list inner.decodes;
      }
  any-Encoded (dict m) h =
      let inner = entries-Encoded m h in
      record {
        result = typed 1 (fields inner.result);
        is = ap of_fields inner.is;
        decodes = ap a_dict inner.decodes;
      }
  any-Encoded (typed_obj o) h = absurd h
  any-Encoded (custom c) h = custom-Encoded c h
  any-Encoded (untyped o) h = absurd h

  items-Encoded : (l : Items) → ArePlain l → EncodedList (encode_items l) (items_with_hex_ints l)
  items-Encoded empty h = record { result = end; is = refl; decodes = refl }
  items-Encoded (item a l) h =
      let first = any-Encoded a h.0 in
      let rest = items-Encoded l h.1 in
      record {
        result = obj first.result rest.result;
        is = rw (first.is, rest.is) refl;
        decodes = rw (first.decodes, rest.decodes) refl;
      }

  entries-Encoded :
      (m : Entries) → ArePlainEntries m → EncodedFields (encode_entries m) (entries_with_hex_ints m)
  entries-Encoded no_entry h = record { result = no_field; is = refl; decodes = refl }
  entries-Encoded (entry k a m) h =
      let first = any-Encoded a h.0 in
      let rest = entries-Encoded m h.1 in
      record {
        result = field k first.result rest.result;
        is = rw (first.is, rest.is) refl;
        decodes = rw (first.decodes, rest.decodes) refl;
      }

-- A value of strings, bytes, addresses of 21 bytes whose first is 0 or 1, and integers of the types
-- big.Int, HexInt and uint64 (those that are encoded by int64 are left out), in lists and maps of any
-- depth, is encoded, and what is decoded of it is the value, its integers as HexInts.
pub decode_any-encode_any : (a : Any) → IsPlain a → Encoded (encode_any a) (with_hex_ints a)
decode_any-encode_any a h = any-Encoded a h
