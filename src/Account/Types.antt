-- ===== src/Account/Types.antt =====
-- The records of core/db_account.go. An account's address is its key in the account DB.
use rewardcalculator.Base.{ℕ, List}
use rewardcalculator.Base.Int.{ℤ}

pub record DelegateData : Type 0 where
  pub address : ℕ
  pub delegate : ℤ

pub record IScoreData : Type 0 where
  pub i_score : ℤ
  pub block_height : ℕ
  pub delegations : List DelegateData
