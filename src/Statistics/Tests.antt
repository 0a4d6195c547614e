-- ===== src/Statistics/Tests.antt =====
-- The counters at concrete values.
use rewardcalculator.Base.{◌≡◌, refl, arith, none, some, ◌-◌}
use rewardcalculator.Base.Words.{modulus}
use rewardcalculator.Statistics.{
  Statistics, new_statistics, field_accounts, uint64, increase, decrease,
}
use rewardcalculator.Statistics.Laws.{decrease-increase}

-- The count of accounts wraps.
abbrev full : Statistics
full = record new_statistics { accounts = modulus - 1 }

decrease-increase_example :
    decrease (increase full field_accounts (uint64 3)).0 field_accounts (uint64 3)
    ≡ some (full, none)
unfolding increase
decrease-increase_example =
    decrease-increase full field_accounts (uint64 3)
      (record { accounts = omega arith; value = λ n e. ground (arith, e) }) refl
