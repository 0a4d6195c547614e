-- ===== src/Statistics.antt =====
-- core/statistics.go: the counters of a calculation. `Increase` and `Decrease` name a field by a
-- string and take a value of any type, a field that there is not or a value of another type is an
-- error that leaves the counters alone.
pub mod Laws
mod Tests
use rewardcalculator.Base.{ℕ, ◌+◌, Bool, true, false, Option, none, some}
use rewardcalculator.Base.Int.{ℤ, pos, ◌+ℤ◌, ◌-ℤ◌}
use rewardcalculator.Base.Words.{wrap64, sub64}

pub record Statistics : Type 0 where
  pub accounts : ℕ
  pub total_reward : ℤ
  pub beta1 : ℤ
  pub beta2 : ℤ
  pub beta3 : ℤ

abbrev pub new_statistics : Statistics
new_statistics = record {
  accounts = 0;
  total_reward = pos 0;
  beta1 = pos 0;
  beta2 = pos 0;
  beta3 = pos 0;
}

-- The fields by their names; `other` is a name that is none of them.
pub data Field : Type 0 where
  field_accounts field_total_reward field_beta1 field_beta2 field_beta3 other : Field

-- The types that the code tells apart.
pub data Value : Type 0 where
  uint64 : ℕ → Value
  hex_int : ℤ → Value
  other_type : Value

pub data StatError : Type 0 where
  no_field : StatError
  wrong_type : StatError

unfoldable pub get_field : Statistics → Field → Option Value
get_field s field_accounts = some (uint64 s.accounts)
get_field s field_total_reward = some (hex_int s.total_reward)
get_field s field_beta1 = some (hex_int s.beta1)
get_field s field_beta2 = some (hex_int s.beta2)
get_field s field_beta3 = some (hex_int s.beta3)
get_field s other = none

-- A value of another type than the field's is refused.
unfoldable pub set : Statistics → Field → Value → Statistics × Option StatError
set s field_accounts (uint64 n) = (record s { accounts = n }, none)
set s field_total_reward (hex_int a) = (record s { total_reward = a }, none)
set s field_beta1 (hex_int a) = (record s { beta1 = a }, none)
set s field_beta2 (hex_int a) = (record s { beta2 = a }, none)
set s field_beta3 (hex_int a) = (record s { beta3 = a }, none)
set s other v = (s, some no_field)
set s f v = (s, some wrong_type)

increase_from : Statistics → Field → Option Value → Value → Statistics × Option StatError
unfolding set
increase_from s f none v = (s, some no_field)
increase_from s f (some (uint64 org)) (uint64 v) = set s f (uint64 (wrap64 (org + v)))
increase_from s f (some (hex_int org)) (hex_int v) = set s f (hex_int (org +ℤ v))
increase_from s f (some org) v = (s, some wrong_type)

unfoldable pub increase : Statistics → Field → Value → Statistics × Option StatError
unfolding get_field increase_from
increase s f v = increase_from s f (get_field s f) v

-- `Decrease` asserts the type of the field without a test before: `none` where that panics.
decrease_from : Statistics → Field → Option Value → Value → Option (Statistics × Option StatError)
unfolding set
decrease_from s f none v = some (s, some no_field)
decrease_from s f (some (uint64 org)) (uint64 v) = some (set s f (uint64 (sub64 org v)))
decrease_from s f (some (hex_int org)) (hex_int v) = some (set s f (hex_int (org -ℤ v)))
decrease_from s f (some org) other_type = some (s, none)
decrease_from s f (some org) v = none

unfoldable pub decrease : Statistics → Field → Value → Option (Statistics × Option StatError)
unfolding get_field decrease_from
decrease s f v = decrease_from s f (get_field s f) v
