-- ===== src/Calculate/PReps.antt =====
-- calculatePRepReward and setPRepReward of core/msg_calculate.go: the rewards of Main and Sub
-- P-Reps for the amounts that are delegated to them. The hash function is a parameter: a fresh
-- state, and what it makes of an account and of the hash of a list.
pub mod Effect
use rewardcalculator.Base.{
  ℕ, nat_eq, ◌+◌, ◌-◌, Bool, Option, none, some, List, [], ◌∷◌, map, ltb, if◌then◌else◌,
}
use rewardcalculator.Base.Int.{ℤ, pos, ◌+ℤ◌, ◌*ℤ◌, ◌/ℤ◌, is_zero}
use rewardcalculator.Account.Types.{IScoreData}
use rewardcalculator.Db.Engine.{Engine}
use rewardcalculator.Context.Periods.{period_of}
use rewardcalculator.Context.Governance.{
  GovernanceVariable, PRepDelegationInfo, PRep, gv_height, prep_height,
}

-- The P-Rep with what it has earned, and the end of the last period that it earned in.
pub record Reward : Type 0 where
  pub address : ℕ
  pub delegated_amount : ℤ
  pub i_score : ℤ
  pub block_height : ℕ

abbrev pub no_reward : PRepDelegationInfo → Reward
no_reward info = record {
  address = info.address;
  delegated_amount = info.delegated_amount;
  i_score = pos 0;
  block_height = 0;
}

-- period * GV * delegation / total delegation, for each P-Rep
unfoldable pub add_period : ℤ → ℕ → ℕ → GovernanceVariable → List Reward → List Reward
add_period total_delegation s e gv [] = []
add_period total_delegation s e gv (r ∷ rest) =
    record r {
      i_score =
          r.i_score
          +ℤ (pos (e - s) *ℤ pos gv.prep_reward *ℤ r.delegated_amount) /ℤ total_delegation;
      block_height = e;
    }
    ∷ add_period total_delegation s e gv rest

-- The loop over the governance variables.
unfoldable pub collect_rewards : ℕ → ℕ → ℤ → List GovernanceVariable → List Reward → List Reward
unfolding add_period
collect_rewards start end total_delegation [] rewards = rewards
collect_rewards start end total_delegation (gv ∷ rest) rewards =
    elim (period_of gv_height start end gv rest) as (λ _. List Reward) [
      | none ↦ collect_rewards start end total_delegation rest rewards
      | some (s, e) ↦
          collect_rewards start end total_delegation rest
            (add_period total_delegation s e gv rewards)
    ]

abbrev pub revision8 : ℕ
revision8 = 8

module _ {H : Type 0} (new_hash : H) (absorb : H → ℕ → IScoreData → H) (absorb_hash : H → H → H)
    (G : Engine ℕ IScoreData) where
  pub record Progress : Type 0 where
    pub table : G.Table
    pub new_account : ℕ
    pub total_reward : ℤ
    pub hash : H

  -- The account with the reward. Before revision 8 the block height is that of the reward.
  abbrev pub rewarded : ℕ → ℕ → ℕ → Reward → Option IScoreData → IScoreData
  rewarded revision end block_height r none = record {
    i_score = r.i_score;
    block_height = if ltb revision revision8 then end else block_height;
    delegations = [];
  }
  rewarded revision end block_height r (some ia) = record ia {
    i_score = ia.i_score +ℤ r.i_score;
    block_height = if ltb revision revision8 then r.block_height else ia.block_height;
  }

  abbrev pub count_new : Option IScoreData → ℕ → ℕ
  count_new none n = n + 1
  count_new (some ia) n = n

  -- The loop that writes to the account DB.
  unfoldable pub write_rewards : ℕ → ℕ → ℕ → List Reward → Progress → Progress
  write_rewards revision end block_height [] s = s
  write_rewards revision end block_height (r ∷ rest) s =
      let old = G.get s.table r.address in
      let ia = rewarded revision end block_height r old in
      write_rewards revision end block_height rest (record {
        table = G.set s.table r.address ia;
        new_account = count_new old s.new_account;
        total_reward = s.total_reward +ℤ r.i_score;
        hash = absorb s.hash r.address ia;
      })

  unfoldable pub set_prep_reward :
      ℕ → List GovernanceVariable → ℕ → ℕ → PRep → ℕ → G.Table → Progress
  unfolding collect_rewards write_rewards
  set_prep_reward revision gvs start end prep block_height table =
      write_rewards revision end block_height
        (collect_rewards start end prep.total_delegation gvs (map no_reward prep.delegations))
        (record { table = table; new_account = 0; total_reward = pos 0; hash = new_hash })

  -- What setPRepReward returns is added up.
  abbrev pub add_result : Progress → Progress → Progress
  add_result s result = record {
    table = result.table;
    new_account = s.new_account + result.new_account;
    total_reward = s.total_reward +ℤ result.total_reward;
    hash = absorb_hash s.hash result.hash;
  }

  -- One round of the loop over the P-Rep lists.
  unfoldable pub reward_period :
      ℕ → List GovernanceVariable → ℕ → PRep → Option (ℕ × ℕ) → Progress → Progress
  unfolding set_prep_reward
  reward_period revision gvs to prep none s = s
  reward_period revision gvs to prep (some (start, end)) s =
      if is_zero prep.total_delegation
      then s
      else add_result s (set_prep_reward revision gvs start end prep to s.table)

  unfoldable pub reward_preps :
      ℕ → List GovernanceVariable → ℕ → ℕ → List PRep → Progress → Progress
  unfolding reward_period
  reward_preps revision gvs start to [] s = s
  reward_preps revision gvs start to (prep ∷ rest) s =
      reward_preps revision gvs start to rest
        (reward_period revision gvs to prep (period_of prep_height start to prep rest) s)

  -- `calc_done` is the height of the last calculation.
  unfoldable pub calculate_prep_reward :
      ℕ → List GovernanceVariable → List PRep → ℕ → ℕ → G.Table → Progress
  unfolding reward_preps
  calculate_prep_reward revision gvs preps calc_done to table =
      reward_preps revision gvs calc_done to preps
        (record { table = table; new_account = 0; total_reward = pos 0; hash = new_hash })
