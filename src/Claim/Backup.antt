-- ===== src/Claim/Backup.antt =====
-- The claim backup DB: writeClaimBackupInfo, garbageCollectClaimBackupDB and checkClaimDBRollback
-- of core/db_claim.go. The key "MI" of the management data is a field of its own.
pub mod Retention
use rewardcalculator.Base.{
  ℕ, zero, suc, ◌+◌, ◌-◌, Bool, Option, none, some, List, [], ◌++◌, ◌==◌, ltb, leb, if◌then◌else◌,
}
use rewardcalculator.Base.Words.{wrap64, sub64}
use rewardcalculator.Db.Engine.{Engine}
use rewardcalculator.Db.Bulk.{delete_keys}
use rewardcalculator.Claim.Types.{ClaimData, BackupKey, backup_key_eq}

abbrev pub claim_backup_period : ℕ
claim_backup_period = 86239

pub record ClaimBackupInfo : Type 0 where
  pub first_block_height : ℕ
  pub last_block_height : ℕ

abbrev pub no_info : ClaimBackupInfo
no_info = record { first_block_height = 0; last_block_height = 0 }

-- The range of MakeIteratorPrefix for the claim backup DB.
abbrev pub at_height : ℕ → BackupKey → Bool
at_height block_height k = k.height == block_height

-- A stored block height that is zero counts as none.
abbrev pub started : ℕ → ClaimBackupInfo → ClaimBackupInfo
started block_height info = record {
  first_block_height =
      if info.first_block_height == 0 then block_height else info.first_block_height;
  last_block_height = if info.last_block_height == 0 then block_height else info.last_block_height;
}

module _ (B : Engine BackupKey ClaimData) where
  -- The rounds of the loop over block heights, from `block_height` up.
  pub gather : ℕ → ℕ → B.Table → List (BackupKey × ClaimData)
  gather zero block_height db = []
  gather (suc rounds) block_height db =
      B.iterate db (at_height block_height) ++ gather rounds (block_height + 1) db

  -- All heights from `from` to `to`; the keys are gathered first and deleted then.
  unfoldable pub garbage_collect : B.Table → ℕ → ℕ → B.Table
  unfolding gather
  garbage_collect db from to = delete_keys B (gather (to + 1 - from) from db) db

  -- The management data and the table after the garbage collection.
  collect : B.Table → ℕ → ClaimBackupInfo → B.Table × ClaimBackupInfo
  unfolding garbage_collect
  collect db block_height info =
      if ltb (wrap64 (claim_backup_period + info.first_block_height)) block_height
      then (let garbage_block = sub64 block_height (claim_backup_period + 1) in
          (
            garbage_collect db info.first_block_height garbage_block,
            record info {
              first_block_height =
                  if ltb info.first_block_height (wrap64 (garbage_block + 1))
                  then wrap64 (garbage_block + 1)
                  else info.first_block_height;
            },
          ))
      else (db, info)

  unfoldable pub write_claim_backup_info :
      B.Table → Option ClaimBackupInfo → ℕ → B.Table × ClaimBackupInfo
  unfolding collect
  write_claim_backup_info db stored block_height =
      let info : ClaimBackupInfo = elim stored [ none ↦ no_info | some i ↦ i ] in
      let (db', info') = collect db block_height (started block_height info) in
      (
        db',
        record info' {
          last_block_height =
              if ltb info'.last_block_height block_height
              then block_height
              else info'.last_block_height;
        },
      )

-- What checkClaimDBRollback says.
pub data RollbackCheck : Type 0 where
  -- RollbackLowBlockHeightError with its two numbers
  too_low : ℕ → ℕ → RollbackCheck
  no_need : RollbackCheck
  needed : RollbackCheck

unfoldable pub check_claim_db_rollback : ClaimBackupInfo → ℕ → RollbackCheck
check_claim_db_rollback info rollback =
    if ltb rollback info.first_block_height
    then too_low info.first_block_height rollback
    else if leb info.last_block_height rollback
    then no_need
    else needed
