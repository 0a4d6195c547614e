-- ===== src/Debug/Types.antt =====
-- The data of core/calculation_debug.go, without the texts of the formulas.
use rewardcalculator.Base.{ℕ, Bool, Option, List, []}
use rewardcalculator.Base.Int.{ℤ, pos}
use rewardcalculator.Context.Governance.{GovernanceVariable}
use rewardcalculator.Context.Candidates.{PRepCandidate}

pub record Generate : Type 0 where
  pub block_count : ℕ
  pub i_score : ℕ

pub record ValidateInfo : Type 0 where
  pub validator_count : ℕ
  pub block_count : ℕ
  pub i_score : ℕ

pub record Beta1 : Type 0 where
  pub beta1_i_score : ℤ
  pub generate : Generate
  pub validate : List ValidateInfo

pub record DelegatedInfo : Type 0 where
  pub block_height : ℕ
  pub delegated : ℕ
  pub total_delegated : ℕ
  pub i_score : ℕ

pub record Beta2 : Type 0 where
  pub beta2_i_score : ℤ
  pub delegated_info : List DelegatedInfo

pub record DelegationInfo : Type 0 where
  pub block_height : ℕ
  pub address : ℕ
  pub amount : ℕ
  pub i_score : ℕ

pub record Beta3 : Type 0 where
  pub beta3_i_score : ℤ
  pub delegation_info : List DelegationInfo

pub record Reward : Type 0 where
  pub block_height : ℕ
  pub beta1 : Beta1
  pub beta2 : Beta2
  pub beta3 : Beta3

-- InitialIScore is left out: it is a shallow copy of the big.Int of TotalIScore, so what it reads
-- after an addition to the total is up to math/big.
pub record CalcResult : Type 0 where
  pub address : ℕ
  pub total_i_score : ℤ
  pub rewards : List Reward

pub record CalcDebugResult : Type 0 where
  pub block_height : ℕ
  pub block_hash : ℕ
  pub preps : List PRepCandidate
  pub gv : List GovernanceVariable
  pub results : List CalcResult

-- The configuration, and the result of the last calculation, nil before the first.
pub record CalcDebug : Type 0 where
  pub flag : Bool
  pub addresses : List ℕ
  pub result : Option CalcDebugResult

abbrev pub new_reward : GovernanceVariable → Reward
new_reward gv = record {
  block_height = gv.block_height;
  beta1 = record {
    beta1_i_score = pos 0;
    generate = record { block_count = 0; i_score = 0 };
    validate = [];
  };
  beta2 = record { beta2_i_score = pos 0; delegated_info = [] };
  beta3 = record { beta3_i_score = pos 0; delegation_info = [] };
}
