-- ===== src/Claim/Rollback.antt =====
-- rollbackClaimDB and _rollbackClaimDB of core/db_claim.go.
pub mod Effect
pub mod Undo
use rewardcalculator.Base.{ℕ, nat_eq, zero, suc, ◌+◌, ◌-◌, none, some, List, [], ◌∷◌, if◌then◌else◌}
use rewardcalculator.Db.Engine.{Engine}
use rewardcalculator.Db.Bulk.{delete_keys}
use rewardcalculator.Claim.Types.{
  ClaimData, PreCommitData, PreCommitKey, BackupKey, pre_commit_key_eq, backup_key_eq, is_nil_claim,
}
use rewardcalculator.Claim.Backup.{
  ClaimBackupInfo, no_info, at_height, RollbackCheck, needed, check_claim_db_rollback,
}
use rewardcalculator.Claim.Block.{Stores}

module _ (C : Engine ℕ ClaimData) (B : Engine BackupKey ClaimData) where
  -- Puts the originals of one block height back.
  unfoldable pub restore : List (BackupKey × ClaimData) → C.Table → C.Table
  restore [] cdb = cdb
  restore ((k, d) ∷ rest) cdb =
      restore rest (if is_nil_claim d then C.delete cdb k.address else C.set cdb k.address d)

  unfoldable pub rollback_height : ℕ → C.Table × B.Table → C.Table × B.Table
  unfolding restore
  rollback_height block_height (cdb, bdb) =
      let entries = B.iterate bdb (at_height block_height) in
      (restore entries cdb, delete_keys B entries bdb)

  -- `for i := from; to <= i; i--` with `from = to + n`, which is n + 1 rounds. The counter of the
  -- source does not pass below zero, as the check before the loop lets no `to` of zero through.
  unfoldable pub rollback_heights : ℕ → ℕ → C.Table × B.Table → C.Table × B.Table
  unfolding rollback_height
  rollback_heights zero to dbs = rollback_height to dbs
  rollback_heights (suc n) to dbs = rollback_heights n to (rollback_height (to + suc n) dbs)

-- The stores and whether the rollback was refused.
module _ (P : Engine PreCommitKey PreCommitData) (C : Engine ℕ ClaimData)
    (B : Engine BackupKey ClaimData) where
  abbrev pub stored_info : Stores P C B → ClaimBackupInfo
  stored_info s = elim s.backup_info [ none ↦ no_info | some i ↦ i ]

  -- The loop and the update of the management data.
  unfoldable pub roll : Stores P C B → ℕ → Stores P C B
  unfolding rollback_heights
  roll s to =
      let info = stored_info s in
      let (cdb, bdb) =
        rollback_heights C B (info.last_block_height - to) to (s.claim, s.claim_backup) in
      record s {
        claim = cdb;
        claim_backup = bdb;
        backup_info = some (record info { last_block_height = to });
      }

  unfoldable pub rollback_claim_db : Stores P C B → ℕ → Stores P C B × RollbackCheck
  unfolding roll
  rollback_claim_db s to =
      let check = check_claim_db_rollback (stored_info s) to in
      (elim check [ needed ↦ roll s to | _ ↦ s ], check)
