-- ===== src/Claim/Rollback/Undo.antt =====
-- The rollback of the claim DB after several blocks (rollbackClaimDB of core/db_claim.go).
pub mod Step
use rewardcalculator.Base.{
  ℕ, zero, suc, nat_eq, ◌+◌, ◌-◌, ◌≤◌, ◌<◌, ◌≡◌, refl, ap, ◌∙◌, false, Option, none, some, List, [],
  ◌∷◌, arith, ◌==◌, ==_iff, ◌&&◌, if◌then◌else◌, length, All, max,
}
use rewardcalculator.Base.Words.{modulus}
use rewardcalculator.Db.Engine.{Engine}
use rewardcalculator.Claim.Types.{
  ClaimData, PreCommitData, PreCommitKey, BackupKey, pre_commit_key_eq, backup_key_eq, is_nil_claim,
}
use rewardcalculator.Claim.PreCommit.{gen_pre_commit_key, prefix}
use rewardcalculator.Claim.PreCommit.Entries.{IsKeyed}
use rewardcalculator.Claim.Backup.{needed, check_claim_db_rollback, claim_backup_period}
use rewardcalculator.Claim.Backup.Retention.{
  begun, info-write_claim_backup_info, get-write_claim_backup_info,
}
use rewardcalculator.Claim.Block.{
  Stores, claimed_with, original, write_all, write_pre_commit_to_claim_db,
}
use rewardcalculator.Claim.Block.Effect.{after, takes, get-write_block, backup_after_block}
use rewardcalculator.Claim.Rollback.{
  rollback_height, rollback_heights, stored_info, roll, rollback_claim_db,
}
use rewardcalculator.Claim.Rollback.Effect.{put_back, claim-rollback_height, backup-rollback_height}
use rewardcalculator.Claim.Rollback.Undo.Step.{
  IsProper, put_back-after, after-IsProper, rollback_heights_last, CommittedBlock, next,
  commit_blocks, IsBefore, first_in_range, info-next, last-next, first-next-le, claim-next,
  backup-next, first-next, next-IsBefore, undo_next,
}

module _ (P : Engine PreCommitKey PreCommitData) (C : Engine ℕ ClaimData)
    (B : Engine BackupKey ClaimData) where
  -- The management data after the blocks.
  first-commit_blocks :
      (bs : List (CommittedBlock P C B)) (s : Stores P C B) (block_height : ℕ)
      → All (λ b. IsKeyed P b.1) bs
      → IsBefore P C B s block_height
      → block_height + length bs + claim_backup_period < modulus
      → 0 < (stored_info P C B s).first_block_height
      → (stored_info P C B s).first_block_height
        ≤ (stored_info P C B (commit_blocks P C B block_height bs s)).first_block_height
  first-commit_blocks [] s block_height keyed before in_range begun_already = omega arith
  first-commit_blocks ((hash, db) ∷ bs) s block_height keyed before in_range begun_already =
      ground (
        arith,
        first-next-le P C B s block_height hash db keyed.0 before (omega arith),
        first-commit_blocks bs (next P C B s block_height (hash, db)) (block_height + 1) keyed.1
            (next-IsBefore P C B s block_height hash db keyed.0 before (omega arith)) (omega arith),
      )

  last-commit_blocks :
      (b : CommittedBlock P C B) (bs : List (CommittedBlock P C B)) (s : Stores P C B)
      (block_height : ℕ)
      → All (λ b. IsKeyed P b.1) (b ∷ bs)
      → IsBefore P C B s block_height
      → block_height + length bs + 1 + claim_backup_period < modulus
      → (stored_info P C B (commit_blocks P C B block_height (b ∷ bs) s)).last_block_height
        ≡ block_height + length bs
  last-commit_blocks (hash, db) [] s block_height keyed before in_range =
      omega (arith, last-next P C B s block_height hash db keyed.0 before (omega arith))
  last-commit_blocks (hash, db) (b ∷ bs) s block_height keyed before in_range = omega (
    arith,
    last-commit_blocks b bs (next P C B s block_height (hash, db)) (block_height + 1) keyed.1
        (next-IsBefore P C B s block_height hash db keyed.0 before (omega arith)) (omega arith),
  )

  -- The DBs hold the claims of `s`, and its backup from a height on.
  abbrev AgreesWith : Stores P C B → ℕ → C.Table × B.Table → Type 0
  AgreesWith s lowest dbs =
      ((a : ℕ) → C.get dbs.0 a ≡ C.get s.claim a)
      × ((k : BackupKey) → lowest ≤ k.height → B.get dbs.1 k ≡ B.get s.claim_backup k)

  undo_blocks :
      (bs : List (CommittedBlock P C B)) (s : Stores P C B) (block_height to lowest : ℕ)
      → to + 1 ≡ block_height
      → lowest ≤ to
      → All (λ b. IsKeyed P b.1) bs
      → IsBefore P C B s block_height
      → block_height + length bs + claim_backup_period < modulus
      → (stored_info P C B (commit_blocks P C B block_height bs s)).first_block_height ≤ lowest
      → let s' = commit_blocks P C B block_height bs s in
        AgreesWith s lowest (rollback_heights C B (length bs) to (s'.claim, s'.claim_backup))
  unfolding rollback_heights
  undo_blocks [] s block_height to lowest e low keyed before in_range kept = (
    λ a. ground (
      arith,
      claim-rollback_height C B to (s.claim, s.claim_backup) a,
      before.unused (record { height = to; address = a }),
    ),
    λ k _.
        ground (arith, backup-rollback_height C B to (s.claim, s.claim_backup) k, before.unused k),
  )
  undo_blocks ((hash, db) ∷ bs) s block_height to lowest e low keyed before in_range kept =
      let s' = next P C B s block_height (hash, db) in
      let before' = next-IsBefore P C B s block_height hash db keyed.0 before (omega arith) in
      let first_le = first-next-le P C B s block_height hash db keyed.0 before (omega arith) in
      let monotone =
        first-commit_blocks bs s' (block_height + 1) keyed.1 before' (omega arith)
          (ground (arith, first_le, before.positive)) in
      let rest =
        undo_blocks bs s' (block_height + 1) (to + 1) lowest (omega arith) (omega arith) keyed.1
          before' (omega arith) kept in
      rw (rollback_heights_last C B (length bs) to) (
        undo_next P C B s block_height hash db keyed.0 before (omega arith) lowest _ (omega arith)
          rest.0 rest.1 to e low)

  first_le_of_needed :
      (s : Stores P C B) (to : ℕ)
      → (rollback_claim_db P C B s to).1 ≡ needed
      → (stored_info P C B s).first_block_height ≤ to
  unfolding rollback_claim_db check_claim_db_rollback
  first_le_of_needed s to passed = ground arith

  rolled :
      (s : Stores P C B) (to n : ℕ)
      → (rollback_claim_db P C B s to).1 ≡ needed
      → (stored_info P C B s).last_block_height - to ≡ n
      → let r = (rollback_claim_db P C B s to).0 in
        (r.claim, r.claim_backup) ≡ rollback_heights C B n to (s.claim, s.claim_backup)
  unfolding rollback_claim_db roll
  rolled s to n passed rounds = rw (← rounds) (
      let e : check_claim_db_rollback (stored_info P C B s) to ≡ needed = passed in
      rw (e, rollback_claim_db))

  -- One block or more is committed above the height `to`, one after another, with claims under the
  -- keys of their addresses; before them the backup has nothing from `to` on, its management data
  -- names no later height, no stored claim is the empty value, and the heights with the backup
  -- period fit in 64 bits. If then the check lets a rollback to `to` pass and finds it needed,
  -- after the rollback every address has the claim that it had at `to`, and the backup has nothing
  -- from `to` on.
  pub rollback_undoes_blocks :
      (b : CommittedBlock P C B) (bs : List (CommittedBlock P C B)) (s : Stores P C B) (to : ℕ)
      → All (λ b. IsKeyed P b.1) (b ∷ bs)
      → IsBefore P C B s (to + 1)
      → to + length bs + 2 + claim_backup_period < modulus
      → (rollback_claim_db P C B (commit_blocks P C B (to + 1) (b ∷ bs) s) to).1 ≡ needed
      → (a : ℕ) (k : BackupKey) → to ≤ k.height
      → let r = (rollback_claim_db P C B (commit_blocks P C B (to + 1) (b ∷ bs) s) to).0 in
        (C.get r.claim a ≡ C.get s.claim a) × (B.get r.claim_backup k ≡ none)
  rollback_undoes_blocks b bs s to keyed before in_range passed a k above =
      let s' = commit_blocks P C B (to + 1) (b ∷ bs) s in
      let last = last-commit_blocks b bs s (to + 1) keyed before (omega arith) in
      let done = rolled s' to (suc (length bs)) passed (omega (arith, last)) in
      let undone =
        undo_blocks (b ∷ bs) s (to + 1) to to refl (omega arith) keyed before (omega arith)
          (first_le_of_needed s' to passed) in
      (
        ap (λ (dbs : C.Table × B.Table). C.get dbs.0 a) done ∙ undone.0 a,
        ap (λ (dbs : C.Table × B.Table). B.get dbs.1 k) done
            ∙ undone.1 k above
            ∙ before.unused k (omega arith),
      )
