-- ===== src/Rollback.antt =====
-- ROLLBACK: DoRollBack of core/msg_rollback.go over all stores of the context.
pub mod Outcome
mod Tests
use rewardcalculator.Base.{ℕ, nat_eq, Bool, Option, none, some, not, if◌then◌else◌}
use rewardcalculator.Db.Engine.{Engine}
use rewardcalculator.Claim.Types.{
  ClaimData, PreCommitData, PreCommitKey, BackupKey, pre_commit_key_eq, backup_key_eq,
}
use rewardcalculator.Claim.Backup.{RollbackCheck, too_low, no_need, needed}
use rewardcalculator.Claim.Block.{Stores}
use rewardcalculator.Claim.Rollback.{rollback_claim_db}
use rewardcalculator.Context.Info.{
  IScoreDb, rollback_current_block_info, check_rollback, check_account_db_rollback,
}
use rewardcalculator.Context.Accounts.{Accounts, rollback_account_db}
use rewardcalculator.Context.Governance.{
  GovernanceVariable, PRep, GvStore, PRepStore, rollback_management_db,
}

-- RollbackLowBlockHeightError
pub record RollbackLowBlockHeightError : Type 0 where
  pub comparison : ℕ
  pub block_height : ℕ

abbrev pub cancel_rollback : ℕ
cancel_rollback = 2

-- `A` is a store of accounts.
module _ (A : Type 0) (P : Engine PreCommitKey PreCommitData) (C : Engine ℕ ClaimData)
    (B : Engine BackupKey ClaimData) (G : Engine ℕ GovernanceVariable) (R : Engine ℕ PRep) where
  pub record Calculator : Type 0 where
    pub stores : Stores P C B
    pub accounts : Accounts A
    pub management : GvStore G × PRepStore R
    pub cancel_code : ℕ

  abbrev pub Result : Type 0
  Result = Calculator × Option RollbackLowBlockHeightError

  -- From the rollback of the account DB on, which is only done if the last calculation is reached.
  unfoldable pub roll_back_accounts : Calculator → ℕ → Calculator
  roll_back_accounts c to = record c {
    accounts =
        if check_account_db_rollback c.accounts.idb to
        then rollback_account_db c.accounts to
        else c.accounts;
    management = rollback_management_db G R to c.management;
  }

  -- From the result of rollbackClaimDB on, which sets the current block if it did something.
  unfoldable pub after_claim_db : Calculator → ℕ → Option ℕ → Stores P C B × RollbackCheck → Result
  unfolding roll_back_accounts
  after_claim_db c to block_hash (stores, too_low first rollback) =
      (c, some (record { comparison = first; block_height = rollback }))
  after_claim_db c to block_hash (stores, no_need) = (roll_back_accounts c to, none)
  after_claim_db c to block_hash (stores, needed) = (
    roll_back_accounts
        (record c {
          stores = stores;
          accounts = record c.accounts {
            idb = rollback_current_block_info c.accounts.idb to block_hash;
          };
        })
        to,
    none,
  )

  unfoldable pub do_roll_back : Calculator → ℕ → Option ℕ → Result
  unfolding after_claim_db
  do_roll_back c to block_hash =
      if check_rollback c.accounts.idb to
      then after_claim_db (record c { cancel_code = cancel_rollback }) to block_hash
          (rollback_claim_db P C B c.stores to)
      else (c, some (record { comparison = c.accounts.idb.info.prev_calc_done; block_height = to }))
