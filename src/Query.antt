-- ===== src/Query.antt =====
-- QUERY, INIT and QUERY_CALCULATE_RESULT: DoQuery and DoInit of core/msg.go,
-- DoQueryCalculateResult of core/msg_calculate.go, and the calculation results of
-- core/db_calculate.go.
pub mod Results
pub mod AfterClaim
mod Tests
use rewardcalculator.Base.{
  ℕ, nat_eq, ◌+◌, Bool, true, false, Option, none, some, ltb, not, ◌==◌, ◌&&◌, if◌then◌else◌,
}
use rewardcalculator.Base.Int.{ℤ, pos, ◌-ℤ◌}
use rewardcalculator.Base.Words.{wrap64}
use rewardcalculator.Db.Engine.{Engine}
use rewardcalculator.Account.Types.{IScoreData}
use rewardcalculator.Claim.Types.{
  ClaimData, PreCommitData, PreCommit, PreCommitKey, pre_commit_key_eq, copied,
}
use rewardcalculator.Claim.PreCommit.{find_pre_commit, init_pre_commit}
use rewardcalculator.Context.Info.{IScoreDb}

-- Query
pub record QueryRequest : Type 0 where
  pub address : ℕ
  pub block_height : ℕ
  pub block_hash : Option ℕ
  pub tx_hash : Option ℕ

pub record ResponseQuery : Type 0 where
  pub address : ℕ
  pub i_score : ℤ
  pub block_height : ℕ

module _ (P : Engine PreCommitKey PreCommitData) (C : Engine ℕ ClaimData) where
  -- The pre-commit that the request names, if it is of the transaction; `IsEmpty` is a block height
  -- of 0.
  unfoldable pub of_transaction : Option PreCommit → ℕ → Option PreCommit
  of_transaction none tx_hash = none
  of_transaction (some pc) tx_hash =
      if pc.tx_hash == tx_hash && not (pc.block_height == 0) then some pc else none

  unfoldable pub pending : P.Table → QueryRequest → Option PreCommit
  unfolding of_transaction find_pre_commit
  pending pre_commit_db req = elim req.tx_hash as (λ _. Option PreCommit) [
    | none ↦ none
    | some tx_hash ↦
        of_transaction
          (find_pre_commit P pre_commit_db req.address req.block_height (copied req.block_hash))
          tx_hash
  ]

  unfoldable pub left : IScoreData → Option ClaimData → ℤ
  left ia none = ia.i_score
  left ia (some claim) = ia.i_score -ℤ claim.i_score

  -- From the claim DB on.
  unfoldable pub from_accounts : Option IScoreData → Option ClaimData → ℕ → ResponseQuery
  unfolding left
  from_accounts none claim address = record { address = address; i_score = pos 0; block_height = 0 }
  from_accounts (some ia) claim address = record {
    address = address;
    i_score = left ia claim;
    block_height = ia.block_height;
  }

  -- `query_db` is what the query DB of an address holds for it.
  unfoldable pub do_query :
      P.Table → C.Table → (ℕ → Option IScoreData) → QueryRequest → ResponseQuery
  unfolding pending from_accounts
  do_query pre_commit_db claim_db query_db req =
      elim (pending pre_commit_db req) as (λ _. ResponseQuery) [
        | some pc ↦ record {
          address = req.address;
          i_score = pos 0;
          block_height = pc.claim.claim_data.block_height;
        }
        | none ↦ from_accounts (query_db req.address) (C.get claim_db req.address) req.address
      ]

-- `false` where the height is refused.
module _ (P : Engine PreCommitKey PreCommitData) where
  unfoldable pub do_init : IScoreDb → P.Table → ℕ → P.Table × Bool
  unfolding init_pre_commit
  do_init idb pre_commit_db block_height =
      if ltb (wrap64 (idb.info.current.block_height + 1)) block_height
      then (pre_commit_db, false)
      else (init_pre_commit P pre_commit_db block_height, true)
