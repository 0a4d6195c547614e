-- ===== src/Claim/Block.antt =====
-- COMMIT_BLOCK and START_BLOCK: writePreCommitToClaimDB of core/db_claim.go, commitBlock and
-- startBlock of core/msg_claim.go.
pub mod Effect
pub mod Settled
use rewardcalculator.Base.{
  ℕ, nat_eq, Bool, Option, none, some, List, [], ◌∷◌, leb, ◌||◌, not, if◌then◌else◌,
}
use rewardcalculator.Base.Int.{◌+ℤ◌, is_zero}
use rewardcalculator.Base.Words.{sub64}
use rewardcalculator.Db.Engine.{Engine}
use rewardcalculator.Claim.Types.{
  ClaimData, PreCommitData, PreCommitKey, BackupKey, pre_commit_key_eq, backup_key_eq, nil_claim,
}
use rewardcalculator.Claim.PreCommit.{prefix, flush_pre_commit}
use rewardcalculator.Claim.Backup.{ClaimBackupInfo, write_claim_backup_info}

-- What one iteration writes to the claim DB over the value that is there: `none` where it
-- continues with the next entry.
unfoldable pub claimed_with : PreCommitData → Option ClaimData → Option ClaimData
claimed_with pc old =
    if not pc.confirmed || is_zero pc.claim.claim_data.i_score then none else elim old [
      | none ↦ some pc.claim.claim_data
      | some o ↦
          if leb pc.claim.claim_data.block_height o.block_height
          then none
          else some
              (record pc.claim.claim_data { i_score = pc.claim.claim_data.i_score +ℤ o.i_score })
    ]

-- The value that goes to the backup: the original, or an empty one.
abbrev pub original : Option ClaimData → ClaimData
original none = nil_claim
original (some o) = o

module _ (P : Engine PreCommitKey PreCommitData) (C : Engine ℕ ClaimData)
    (B : Engine BackupKey ClaimData) where
  -- The DBs that claims touch, and the management data of the claim backup DB.
  pub record Stores : Type 0 where
    pub pre_commit : P.Table
    pub claim : C.Table
    pub claim_backup : B.Table
    pub backup_info : Option ClaimBackupInfo

module _ (C : Engine ℕ ClaimData) (B : Engine BackupKey ClaimData) where
  -- One round of the loop.
  unfoldable pub write_one : ℕ → PreCommitData → C.Table × B.Table → C.Table × B.Table
  write_one block_height pc (cdb, bdb) =
      let address = pc.claim.address in
      let old = C.get cdb address in
      elim (claimed_with pc old) [
        | none ↦ (cdb, bdb)
        | some new ↦ (
          C.set cdb address new,
          B.set bdb (record { height = sub64 block_height 1; address = address }) (original old),
        )
      ]

  unfoldable pub write_all :
      ℕ → List (PreCommitKey × PreCommitData) → C.Table × B.Table → C.Table × B.Table
  write_all block_height [] dbs = dbs
  write_all block_height ((k, pc) ∷ rest) dbs =
      write_all block_height rest (write_one block_height pc dbs)

module _ (P : Engine PreCommitKey PreCommitData) (C : Engine ℕ ClaimData)
    (B : Engine BackupKey ClaimData) where
  unfoldable pub write_pre_commit_to_claim_db : Stores P C B → ℕ → Option ℕ → Stores P C B
  unfolding write_all
  write_pre_commit_to_claim_db s block_height block_hash =
      let entries = P.iterate s.pre_commit (prefix block_height block_hash) in
      let (cdb, bdb) = write_all C B block_height entries (s.claim, s.claim_backup) in
      let (bdb', info) = write_claim_backup_info B bdb s.backup_info block_height in
      record {
        pre_commit = flush_pre_commit P s.pre_commit block_height none;
        claim = cdb;
        claim_backup = bdb';
        backup_info = some info;
      }

  -- COMMIT_BLOCK: `success` is the flag of the request. The management DB is told the new block
  -- by `IScoreDB.setCurrentBlockInfo`, which touches none of these stores.
  unfoldable pub commit_block : Stores P C B → Bool → ℕ → Option ℕ → Stores P C B
  unfolding write_pre_commit_to_claim_db
  commit_block s success block_height block_hash =
      if success
      then write_pre_commit_to_claim_db s block_height block_hash
      else record s { pre_commit = flush_pre_commit P s.pre_commit block_height block_hash }

  unfoldable pub start_block : Stores P C B → ℕ → Option ℕ → Stores P C B
  start_block s block_height block_hash = record s {
    pre_commit = flush_pre_commit P s.pre_commit block_height block_hash;
  }
