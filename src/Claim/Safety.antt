-- ===== src/Claim/Safety.antt =====
-- The payments of a sequence of requests against the I-Scores (core/msg_claim.go, core/db_claim.go).
use rewardcalculator.Base.{ℕ, nat_eq, ◌+◌, ◌≡◌, Option, some}
use rewardcalculator.Base.Int.{◌+ℤ◌, ◌≤ℤ◌}
use rewardcalculator.Db.Engine.{Engine}
use rewardcalculator.Account.Types.{IScoreData}
use rewardcalculator.Claim.Types.{
  ClaimData, PreCommitData, PreCommit, PreCommitKey, BackupKey, pre_commit_key_eq, backup_key_eq,
}
use rewardcalculator.Claim.PreCommit.{new_pre_commit}
use rewardcalculator.Claim.PreCommit.Entries.{IsKeyed}
use rewardcalculator.Claim.Request.{CommitClaim}
use rewardcalculator.Claim.Protocol.{score_of, claimed_of, World}

module _ (P : Engine PreCommitKey PreCommitData) (C : Engine ℕ ClaimData)
    (B : Engine BackupKey ClaimData) where
  -- Every pre-commit is of the block after the current one, and is covered by what its account
  -- has left.
  pub record IsFunded (current : ℕ) (query_db : ℕ → Option IScoreData) (cdb : C.Table)
      (db : P.Table) : Type 0 where
    pub keyed : IsKeyed P db
    pub next_block :
        (k : PreCommitKey) (b : PreCommitData) → P.get db k ≡ some b → k.height ≡ current + 1
    pub covered :
        (k : PreCommitKey) (b : PreCommitData)
        → P.get db k ≡ some b
        → b.claim.claim_data.i_score +ℤ claimed_of (C.get cdb k.address)
          ≤ℤ score_of (query_db k.address)

  -- What was claimed is covered, for every address.
  abbrev pub IsSolvent : (ℕ → Option IScoreData) → C.Table → Type 0
  IsSolvent query_db cdb = (a : ℕ) → claimed_of (C.get cdb a) ≤ℤ score_of (query_db a)

  abbrev named : CommitClaim → PreCommit
  named req = new_pre_commit req.block_height req.block_hash req.tx_index req.tx_hash req.address

  -- The pre-commits are funded and the claims are solvent.
  pub record IsSafe (w : World P C B) : Type 0 where
    pub funded : IsFunded w.current w.query_db w.stores.claim w.stores.pre_commit
    pub solvent : IsSolvent w.query_db w.stores.claim
