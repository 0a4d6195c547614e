-- ===== src/Query/Results.antt =====
-- core/db_calculate.go, and DoQueryCalculateResult of core/msg_calculate.go. A result is stored
-- under its block height.
pub mod Stored
use rewardcalculator.Base.{ℕ, nat_eq, Bool, true, Option, none, some, ◌==◌, ◌&&◌, if◌then◌else◌}
use rewardcalculator.Base.Int.{ℤ, pos}
use rewardcalculator.Db.Engine.{Engine}
use rewardcalculator.Context.Info.{IScoreDb, is_calculating}
use rewardcalculator.Statistics.{Statistics}

-- `H` is what a state hash is; `none` is the nil slice.
module _ (H : Type 0) where
  pub record CrData : Type 0 where
    pub success : Bool
    pub state_hash : Option H
    pub i_score : ℤ
    pub beta1 : ℤ
    pub beta2 : ℤ
    pub beta3 : ℤ

  -- `stats` is `none` where the pointer is nil.
  unfoldable pub new_result : Option Statistics → Option H → CrData
  new_result none state_hash = record {
    success = true;
    state_hash = state_hash;
    i_score = pos 0;
    beta1 = pos 0;
    beta2 = pos 0;
    beta3 = pos 0;
  }
  new_result (some stats) state_hash = record {
    success = true;
    state_hash = state_hash;
    i_score = stats.total_reward;
    beta1 = stats.beta1;
    beta2 = stats.beta2;
    beta3 = stats.beta3;
  }

  pub data CalcResultStatus : Type 0 where
    succeeded failed doing invalid_bh : CalcResultStatus

  pub record QueryCalculateResultResponse : Type 0 where
    pub status : CalcResultStatus
    pub block_height : ℕ
    pub i_score : ℤ
    pub state_hash : Option H

  module _ (R : Engine ℕ CrData) where
    unfoldable pub write_calculation_result : R.Table → ℕ → Option Statistics → Option H → R.Table
    unfolding new_result
    write_calculation_result db block_height stats state_hash =
        R.set db block_height (new_result stats state_hash)

    unfoldable pub delete_calculation_result : R.Table → ℕ → R.Table
    delete_calculation_result db block_height = R.delete db block_height

    unfoldable pub from_result : ℕ → Option CrData → QueryCalculateResultResponse
    from_result block_height none = record {
      status = invalid_bh;
      block_height = block_height;
      i_score = pos 0;
      state_hash = none;
    }
    from_result block_height (some cr) =
        if cr.success
        then record {
          status = succeeded;
          block_height = block_height;
          i_score = cr.i_score;
          state_hash = cr.state_hash;
        }
        else record {
          status = failed;
          block_height = block_height;
          i_score = pos 0;
          state_hash = none;
        }

    unfoldable pub do_query_calculate_result : IScoreDb → R.Table → ℕ → QueryCalculateResultResponse
    unfolding from_result is_calculating
    do_query_calculate_result idb db block_height =
        if is_calculating idb && block_height == idb.info.calculating
        then record {
          status = doing;
          block_height = block_height;
          i_score = pos 0;
          state_hash = none;
        }
        else from_result block_height (R.get db block_height)
