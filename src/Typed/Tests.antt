-- ===== src/Typed/Tests.antt =====
-- Typed objects at concrete values.
use rewardcalculator.Base.{◌≡◌, refl, arith, false, some, List, [], ◌∷◌, ◌++◌, replicate}
use rewardcalculator.Base.Int.{negsuc}
use rewardcalculator.Base.Bytes.{Bytes}
use rewardcalculator.Db.Key.Order.{zeros-AreBytes}
use rewardcalculator.Address.RoundTrip.{IsAddress}
use rewardcalculator.Typed.{
  Any, list, string, custom, address, uint, big_int, hex_int, item, empty, typed, raw, ok,
  encode_any, decode_any, TypedObj,
}
use rewardcalculator.Typed.RoundTrip.{IsPlain, Encoded, with_hex_ints, decode_any-encode_any}
use rewardcalculator.Typed.Delegations.{
  Delegation, delegate_data, delegations_from_iiss, first_only, delegations_from_iiss-delegate_data,
}

abbrev receiver : Bytes
receiver = 0 ∷ replicate 19 0 ++ 7 ∷ []

receiver-IsAddress : IsAddress receiver
receiver-IsAddress = record {
  contract = false;
  id = replicate 19 0 ++ 7 ∷ [];
  is = refl;
  long = refl;
  are_bytes = zeros-AreBytes 19 (7 ∷ []) (omega arith, tt);
}

abbrev value : Any
value = list (
    item (string (b'a' ∷ [])) (
      item (list (item (custom (address receiver)) (item (custom (big_int (negsuc 999))) empty)))
        empty))

value-IsPlain : IsPlain value
unfolding IsPlain
value-IsPlain = (tt, ((receiver-IsAddress, (tt, tt)), tt))

decode_any-encode_any_example : Encoded (encode_any value) (with_hex_ints value)
decode_any-encode_any_example = decode_any-encode_any value value-IsPlain

-- A uint of 64 bits goes by int64, so its largest value is read as -1.
max_uint : encode_any (custom (uint 18446744073709551615)) ≡ some (typed 11 (raw (255 ∷ [])))
unfolding encode_any
max_uint = refl

minus_one : decode_any (typed 11 (raw (255 ∷ []))) ≡ ok (custom (hex_int (negsuc 0)))
unfolding decode_any
minus_one = refl

abbrev two : List Delegation
two = record { to = receiver; amount = 5 } ∷ record { to = receiver; amount = 6 } ∷ []

delegations_from_iiss-delegate_data_example :
    (o : TypedObj) × (delegate_data two ≡ some o)
    × (delegations_from_iiss o ≡ some (first_only two))
delegations_from_iiss-delegate_data_example =
    delegations_from_iiss-delegate_data two (receiver-IsAddress, (receiver-IsAddress, tt))
