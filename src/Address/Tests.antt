-- ===== src/Address/Tests.antt =====
-- An address at concrete values.
use rewardcalculator.Base.{◌≡◌, refl, arith, true, some, [], ◌∷◌, ◌++◌, replicate}
use rewardcalculator.Base.Bytes.{Bytes}
use rewardcalculator.Db.Key.Order.{zeros-AreBytes}
use rewardcalculator.Address.{set_bytes, set_string, to_string, done, new_address, zero_address}
use rewardcalculator.Address.RoundTrip.{IsAddress, set_bytes-set_string}

abbrev contract : Bytes
contract = 1 ∷ replicate 19 0 ++ 202 ∷ []

contract-IsAddress : IsAddress contract
contract-IsAddress = record {
  contract = true;
  id = replicate 19 0 ++ 202 ∷ [];
  is = refl;
  long = refl;
  are_bytes = zeros-AreBytes 19 (202 ∷ []) (omega arith, tt);
}

set_bytes-set_string_example :
    (set_bytes zero_address (some contract) ≡ done contract)
    × (set_string zero_address (to_string contract) ≡ done contract)
    × (new_address (some contract) ≡ some contract)
set_bytes-set_string_example =
    set_bytes-set_string 0 (replicate 20 0) contract refl contract-IsAddress
