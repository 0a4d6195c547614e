-- ===== src/Claim/Rollback/Undo/Step.antt =====
-- One block that is committed and rolled back.
use rewardcalculator.Base.{
  ℕ, zero, suc, nat_eq, ◌+◌, ◌-◌, ◌≤◌, ◌<◌, ◌≡◌, refl, false, Option, none, some, List, [], ◌∷◌,
  arith, ◌==◌, ==_iff, ◌&&◌, if◌then◌else◌, max,
}
use rewardcalculator.Base.Words.{modulus}
use rewardcalculator.Db.Engine.{Engine}
use rewardcalculator.Claim.Types.{
  ClaimData, PreCommitData, PreCommitKey, BackupKey, pre_commit_key_eq, backup_key_eq, is_nil_claim,
}
use rewardcalculator.Claim.PreCommit.{gen_pre_commit_key, prefix}
use rewardcalculator.Claim.PreCommit.Entries.{IsKeyed}
use rewardcalculator.Claim.Backup.{claim_backup_period}
use rewardcalculator.Claim.Backup.Retention.{
  begun, info-write_claim_backup_info, get-write_claim_backup_info,
}
use rewardcalculator.Claim.Block.{
  Stores, claimed_with, original, write_all, write_pre_commit_to_claim_db,
}
use rewardcalculator.Claim.Block.Effect.{after, takes, get-write_block, backup_after_block}
use rewardcalculator.Claim.Rollback.{rollback_height, rollback_heights, stored_info}
use rewardcalculator.Claim.Rollback.Effect.{put_back, claim-rollback_height, backup-rollback_height}

-- A stored claim is not the value that stands for no claim.
abbrev pub IsProper : Option ClaimData → Type 0
IsProper none = Unit
IsProper (some d) = is_nil_claim d ≡ false

-- With the backup that a block writes, what it did to a claim is undone.
pub put_back-after :
    (pc : Option PreCommitData) (old : Option ClaimData)
    → IsProper old
    → put_back (if takes pc old then some (original old) else none) (after pc old) ≡ old
unfolding claimed_with
put_back-after none old h = refl
put_back-after (some pc) none h = ground arith
put_back-after (some pc) (some o) h = ground arith

pub after-IsProper :
    (pc : Option PreCommitData) (old : Option ClaimData) → IsProper old → IsProper (after pc old)
unfolding claimed_with
after-IsProper none old h = h
after-IsProper (some pc) none h = ground arith
after-IsProper (some pc) (some o) h = ground arith

module _ (C : Engine ℕ ClaimData) (B : Engine BackupKey ClaimData) where
  -- The lowest height is the last that is rolled back.
  pub rollback_heights_last :
      (n to : ℕ) (dbs : C.Table × B.Table)
      → rollback_heights C B (suc n) to dbs
        ≡ rollback_height C B to (rollback_heights C B n (to + 1) dbs)
  unfolding rollback_heights
  rollback_heights_last zero to dbs = refl
  rollback_heights_last (suc n) to dbs =
      let e : to + suc (suc n) ≡ to + 1 + suc n = omega arith in
      rw e (rollback_heights_last n to (rollback_height C B (to + 1 + suc n) dbs))

module _ (P : Engine PreCommitKey PreCommitData) (C : Engine ℕ ClaimData)
    (B : Engine BackupKey ClaimData) where
  -- A block: its hash, and the pre-commits as they are when it is committed.
  abbrev pub CommittedBlock : Type 0
  CommittedBlock = ℕ × P.Table

  abbrev pub next : Stores P C B → ℕ → CommittedBlock → Stores P C B
  next s block_height (hash, db) =
      write_pre_commit_to_claim_db P C B (record s { pre_commit = db }) block_height (some hash)

  -- Blocks are committed one after another, from a height on.
  abbrev pub commit_blocks : ℕ → List CommittedBlock → Stores P C B → Stores P C B
  commit_blocks block_height [] s = s
  commit_blocks block_height (b ∷ bs) s =
      commit_blocks (block_height + 1) bs (next s block_height b)

  -- The stores before the block of a height: the backup has nothing from the height before on, and
  -- the management data knows no later block.
  pub record IsBefore (s : Stores P C B) (block_height : ℕ) : Type 0 where
    pub positive : 0 < block_height
    pub first : (stored_info P C B s).first_block_height ≤ block_height
    pub last : (stored_info P C B s).last_block_height ≤ block_height
    pub proper : (a : ℕ) → IsProper (C.get s.claim a)
    pub unused : (k : BackupKey) → block_height ≤ k.height + 1 → B.get s.claim_backup k ≡ none

  module _ (s : Stores P C B) (block_height : ℕ) (hash : ℕ) (db : P.Table) (keyed : IsKeyed P db)
      (before : IsBefore s block_height)
      (in_range : block_height + claim_backup_period < modulus) where
    abbrev pub s' : Stores P C B
    s' = next s block_height (hash, db)

    -- The backup before its garbage collection.
    abbrev pub written : B.Table
    written =
        (write_all C B block_height (P.iterate db (prefix block_height (some hash)))
          (s.claim, s.claim_backup)).1

    pub first_in_range :
        (begun s.backup_info block_height).first_block_height + claim_backup_period < modulus
    first_in_range = ground (arith, before.first)

    pub info-next :
        (stored_info P C B s').first_block_height
        ≡ max
            (begun s.backup_info block_height).first_block_height
            (block_height - claim_backup_period)
    unfolding write_pre_commit_to_claim_db
    info-next = ground (
      arith,
      info-write_claim_backup_info B written s.backup_info block_height in_range first_in_range,
    )

    pub last-next : (stored_info P C B s').last_block_height ≡ block_height
    unfolding write_pre_commit_to_claim_db
    last-next = ground (
      arith,
      before.last,
      before.positive,
      info-write_claim_backup_info B written s.backup_info block_height in_range first_in_range,
    )

    pub first-next-le :
        (begun s.backup_info block_height).first_block_height
        ≤ (stored_info P C B s').first_block_height
    first-next-le = ground (arith, info-next)

    pub claim-next :
        (a : ℕ)
        → C.get s'.claim a
          ≡ after (P.get db (gen_pre_commit_key a block_height hash)) (C.get s.claim a)
    unfolding write_pre_commit_to_claim_db
    claim-next a = get-write_block P C B db keyed block_height hash (s.claim, s.claim_backup) a

    pub backup-next :
        (k : BackupKey)
        → (stored_info P C B s').first_block_height ≤ k.height
        → B.get s'.claim_backup k ≡ (
            if k.height + 1 == block_height
              && takes
                  (P.get db (gen_pre_commit_key k.address block_height hash))
                  (C.get s.claim k.address)
            then some (original (C.get s.claim k.address))
            else B.get s.claim_backup k)
    unfolding write_pre_commit_to_claim_db
    backup-next k kept = ground (
      arith,
      info-next,
      before.positive,
      get-write_claim_backup_info B written s.backup_info block_height in_range first_in_range k,
      backup_after_block P C B db keyed block_height hash (s.claim, s.claim_backup) k,
    )

    pub first-next : (stored_info P C B s').first_block_height ≤ block_height
    first-next = ground (arith, info-next, before.first)

    pub next-IsBefore : IsBefore s' (block_height + 1)
    next-IsBefore = record {
      positive = omega arith;
      first = omega (arith, first-next);
      last = omega (arith, last-next);
      proper = λ a. rw (claim-next a) (
          after-IsProper (P.get db (gen_pre_commit_key a block_height hash)) (C.get s.claim a)
            (before.proper a));
      unused = λ k above.
          let e = backup-next k (omega (arith, first-next)) in
          rw e (ground (arith, before.unused k (omega arith)));
    }

    -- Undoing this block from DBs that agree with those after it.
    pub undo_next :
        (lowest : ℕ) (dbs : C.Table × B.Table)
        → (stored_info P C B s').first_block_height ≤ lowest
        → ((a : ℕ) → C.get dbs.0 a ≡ C.get s'.claim a)
        → ((k : BackupKey) → lowest ≤ k.height → B.get dbs.1 k ≡ B.get s'.claim_backup k)
        → (height : ℕ) → height + 1 ≡ block_height
        → lowest ≤ height
        → let (cdb, bdb) = rollback_height C B height dbs in
          ((a : ℕ) → C.get cdb a ≡ C.get s.claim a)
          × ((k : BackupKey) → lowest ≤ k.height → B.get bdb k ≡ B.get s.claim_backup k)
    undo_next lowest dbs kept same_claim same_backup height e above = (
      λ a.
          let k : BackupKey = record { height = height; address = a } in
          rw
            (
              claim-rollback_height C B height dbs a,
              same_backup k above,
              same_claim a,
              claim-next a,
            )
            (rw (backup-next k (omega arith)) (
              rw ((==_iff (height + 1) block_height).1 e, before.unused k (omega arith))
                (put_back-after (P.get db (gen_pre_commit_key a block_height hash))
                  (C.get s.claim a) (before.proper a)))),
      λ k low. ground (
        arith,
        backup-rollback_height C B height dbs k,
        same_backup k low,
        backup-next k (omega arith),
        before.unused k,
      ),
    )
