-- ===== src/Claim/Backup/Retention.antt =====
-- How long the claim backup DB keeps what it has.
use rewardcalculator.Base.{
  ℕ, zero, suc, ◌+◌, ◌-◌, ◌<◌, max, ◌≡◌, Option, none, some, arith, ◌&&◌, ltb, leb, if◌then◌else◌,
  lookup, lookup-append,
}
use rewardcalculator.Base.Words.{modulus}
use rewardcalculator.Db.Engine.{Engine}
use rewardcalculator.Db.Bulk.{get-delete_keys}
use rewardcalculator.Claim.Types.{ClaimData, BackupKey, backup_key_eq}
use rewardcalculator.Claim.Backup.{
  ClaimBackupInfo, no_info, claim_backup_period, at_height, started, gather, garbage_collect,
  collect, write_claim_backup_info,
}

-- The management data that a block starts from.
abbrev pub begun : Option ClaimBackupInfo → ℕ → ClaimBackupInfo
begun stored block_height =
    started block_height (elim stored as (λ _. ClaimBackupInfo) [ none ↦ no_info | some i ↦ i ])

module _ (B : Engine BackupKey ClaimData) where
  lookup-gather :
      (rounds block_height : ℕ) (db : B.Table) (k : BackupKey)
      → lookup k (gather B rounds block_height db) ≡ (
          if leb block_height k.height && ltb k.height (block_height + rounds)
          then B.get db k
          else none)
  unfolding gather
  lookup-gather zero block_height db k = ground arith
  lookup-gather (suc rounds) block_height db k = ground (
    arith,
    lookup-append (B.iterate db (at_height block_height)) (gather B rounds (block_height + 1) db) k,
    B.lookup-iterate db (at_height block_height) k,
    lookup-gather rounds (block_height + 1) db k,
  )

  -- The garbage collection deletes what stands at the heights of its range and nothing else.
  get-garbage_collect :
      (db : B.Table) (from to : ℕ) (k : BackupKey)
      → B.get (garbage_collect B db from to) k
        ≡ (if leb from k.height && leb k.height to then none else B.get db k)
  unfolding garbage_collect
  get-garbage_collect db from to k = ground (
    arith,
    get-delete_keys B (gather B (to + 1 - from) from db) db k,
    lookup-gather (to + 1 - from) from db k,
  )

  module _ (db : B.Table) (info : ClaimBackupInfo) (block_height : ℕ)
      (in_range : block_height + claim_backup_period < modulus)
      (first_in_range : info.first_block_height + claim_backup_period < modulus) where
    first-collect :
        (collect B db block_height info).1.first_block_height
        ≡ max info.first_block_height (block_height - claim_backup_period)
    unfolding collect
    first-collect = ground arith

    last-collect : (collect B db block_height info).1.last_block_height ≡ info.last_block_height
    unfolding collect
    last-collect = ground arith

    get-collect :
        (k : BackupKey)
        → B.get (collect B db block_height info).0 k ≡ (
            if leb info.first_block_height k.height
              && ltb k.height (block_height - claim_backup_period)
            then none
            else B.get db k)
    unfolding collect
    get-collect k = ground (
      arith,
      get-garbage_collect db info.first_block_height (block_height - claim_backup_period - 1) k,
    )

module _ (B : Engine BackupKey ClaimData) (db : B.Table) (stored : Option ClaimBackupInfo)
    (block_height : ℕ) (in_range : block_height + claim_backup_period < modulus)
    (first_in_range : (begun stored block_height).first_block_height + claim_backup_period
      < modulus) where
  -- Where no height with the backup period passes 64 bits, after a block the first height of the
  -- backup is the one before or, if that is higher, the block height less the backup period, and
  -- the last height is the highest block so far.
  pub info-write_claim_backup_info : (write_claim_backup_info B db stored block_height).1 ≡ record {
    first_block_height =
        max (begun stored block_height).first_block_height (block_height - claim_backup_period);
    last_block_height = max (begun stored block_height).last_block_height block_height;
  }
  unfolding write_claim_backup_info
  info-write_claim_backup_info = ground (
    arith,
    first-collect B db (begun stored block_height) block_height in_range first_in_range,
    last-collect B db (begun stored block_height) block_height in_range first_in_range,
  )

  -- Where no height with the backup period passes 64 bits, a block deletes the backup from the
  -- first height on and below the block height less the backup period, and keeps the rest.
  pub get-write_claim_backup_info :
      (k : BackupKey)
      → B.get (write_claim_backup_info B db stored block_height).0 k ≡ (
          if leb (begun stored block_height).first_block_height k.height
            && ltb k.height (block_height - claim_backup_period)
          then none
          else B.get db k)
  unfolding write_claim_backup_info
  get-write_claim_backup_info k =
      get-collect B db (begun stored block_height) block_height in_range first_in_range k
