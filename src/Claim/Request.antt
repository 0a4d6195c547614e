-- ===== src/Claim/Request.antt =====
-- CLAIM and COMMIT_CLAIM: DoClaim and DoCommitClaim of core/msg_claim.go.
pub mod Payout
use rewardcalculator.Base.{ℕ, nat_eq, Bool, Option, none, some, ◌==◌, if◌then◌else◌}
use rewardcalculator.Base.Int.{ℤ, pos, ◌-ℤ◌, ◌%ℤ◌, ltb_ℤ}
use rewardcalculator.Db.Engine.{Engine}
use rewardcalculator.Account.Types.{IScoreData}
use rewardcalculator.Claim.Types.{
  ClaimData, PreCommitData, PreCommit, PreCommitKey, pre_commit_key_eq,
}
use rewardcalculator.Claim.PreCommit.{new_pre_commit, query, write, commit, revert}

abbrev pub claim_min_i_score : ℕ
claim_min_i_score = 1000

pub record ClaimMessage : Type 0 where
  pub address : ℕ
  pub block_height : ℕ
  pub block_hash : Option ℕ
  pub tx_index : ℕ
  pub tx_hash : Option ℕ

pub record CommitClaim : Type 0 where
  pub success : Bool
  pub address : ℕ
  pub block_height : ℕ
  pub block_hash : Option ℕ
  pub tx_index : ℕ
  pub tx_hash : Option ℕ

module _ (P : Engine PreCommitKey PreCommitData) (C : Engine ℕ ClaimData) where
  -- The new pre-commit store, the block height of the answer and its I-Score.
  abbrev pub Answer : Type 0
  Answer = P.Table × ℕ × Option ℤ

  -- The pre-commit that a request names.
  abbrev pub requested : ClaimMessage → PreCommit
  requested req =
      new_pre_commit req.block_height req.block_hash req.tx_index req.tx_hash req.address

  -- From "Can't claim an I-Score less than 1000" on.
  settle : P.Table → PreCommit → ℕ → ℤ → Answer
  settle pre_commit_db pre_commit block_height i_score =
      if ltb_ℤ i_score (pos claim_min_i_score)
      then (pre_commit_db, 0, none)
      else let paid = i_score -ℤ i_score %ℤ pos claim_min_i_score in
        (write P pre_commit_db pre_commit (some paid), block_height, some paid)

  -- What was claimed before is subtracted.
  subtract_claimed : P.Table → PreCommit → IScoreData → Option ClaimData → Answer
  unfolding settle
  subtract_claimed pre_commit_db pre_commit ia none =
      settle pre_commit_db pre_commit ia.block_height ia.i_score
  subtract_claimed pre_commit_db pre_commit ia (some claim) =
      if ia.block_height == claim.block_height
      then (pre_commit_db, ia.block_height, none)
      else settle pre_commit_db pre_commit ia.block_height (ia.i_score -ℤ claim.i_score)

  -- `query_db` is what the query DB of an address holds for it.
  unfoldable pub do_claim : P.Table → C.Table → (ℕ → Option IScoreData) → ClaimMessage → Answer
  unfolding subtract_claimed
  do_claim pre_commit_db claim_db query_db req =
      let (stored, found) = query P pre_commit_db (requested req) in
      if found then (pre_commit_db, stored.block_height, none) else elim (query_db req.address) [
        | none ↦ (pre_commit_db, 0, none)
        | some ia ↦ subtract_claimed pre_commit_db (requested req) ia (C.get claim_db req.address)
      ]

module _ (P : Engine PreCommitKey PreCommitData) where
  -- The error of `commit` or `revert` is logged and dropped.
  unfoldable pub do_commit_claim : P.Table → CommitClaim → P.Table
  do_commit_claim pre_commit_db req =
      let pre_commit =
        new_pre_commit req.block_height req.block_hash req.tx_index req.tx_hash req.address in
      if req.success
      then (commit P pre_commit_db pre_commit).0
      else (revert P pre_commit_db pre_commit).0
