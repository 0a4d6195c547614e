-- ===== src/Calculate/Delegation.antt =====
-- The reward of delegations: calculateDelegationReward and calculateIScore of
-- core/msg_calculate.go. The calls of WriteBeta3Info are in Debug/Delegations.
pub mod Clip
pub mod Bounds
pub mod Earned
use rewardcalculator.Base.{
  ℕ, nat_eq, ◌+◌, ◌-◌, ◌*◌, ◌/◌, Bool, Option, none, some, List, [], ◌∷◌, ltb, leb, ◌==◌,
  if◌then◌else◌, ◌&&◌, not, lookup,
}
use rewardcalculator.Base.Int.{ℤ, pos, ◌+ℤ◌, ◌*ℤ◌, ◌/ℤ◌, is_zero, to_uint64}
use rewardcalculator.Base.Words.{wrap64}
use rewardcalculator.Account.Types.{DelegateData, IScoreData}
use rewardcalculator.Context.Periods.{period_of}
use rewardcalculator.Context.Governance.{GovernanceVariable, gv_height}
use rewardcalculator.Context.Candidates.{PRepCandidate}

-- rewardDivider = blocksPerYear * gvDivider / iScoreMultiplier
abbrev pub reward_divider : ℕ
reward_divider = 15552000 * 10000 / 1000

-- MinDelegation = blocksPerYear / iScoreMultiplier * (gvDivider / minRewardRep)
abbrev pub min_delegation : ℕ
min_delegation = 15552000 / 1000 * (10000 / 200)

abbrev pub clip_start : ℕ → PRepCandidate → ℕ
clip_start start p_rep = if ltb start p_rep.start then p_rep.start else start

abbrev pub clip_end : ℕ → PRepCandidate → ℕ
clip_end end p_rep = if not (p_rep.end == 0) && ltb p_rep.end end then p_rep.end else end

-- delegation amount * period * GV / rewardDivider
unfoldable pub reward_of : ℤ → ℕ → GovernanceVariable → ℤ
reward_of delegate period gv = (delegate *ℤ pos period *ℤ pos gv.reward_rep) /ℤ pos reward_divider

-- The loop over the governance variables.
unfoldable pub add_rewards : ℕ → ℕ → ℤ → ℤ → List GovernanceVariable → ℤ
unfolding reward_of
add_rewards start end delegate total [] = total
add_rewards start end delegate total (gv ∷ rest) =
    elim (period_of gv_height start end gv rest) as (λ _. ℤ) [
      | none ↦ add_rewards start end delegate total rest
      | some (s, e) ↦ add_rewards start end delegate (total +ℤ reward_of delegate (e - s) gv) rest
    ]

unfoldable pub calculate_delegation_reward : List GovernanceVariable → ℤ → ℕ → ℕ → PRepCandidate → ℤ
unfolding add_rewards
calculate_delegation_reward gvs delegate start end p_rep =
    add_rewards (clip_start start p_rep) (clip_end end p_rep) delegate (pos 0) gvs

module _ (candidates : List (ℕ × PRepCandidate)) (gvs : List GovernanceVariable) where
  -- The loop over an account's delegations.
  unfoldable pub add_delegations : ℕ → ℕ → ℤ → List DelegateData → ℤ
  add_delegations start end total [] = total
  add_delegations start end total (dg ∷ rest) =
      let with_reward : PRepCandidate → ℤ =
        λ p_rep. total +ℤ calculate_delegation_reward gvs dg.delegate start end p_rep in
      let total' : ℤ =
        if ltb (to_uint64 dg.delegate) min_delegation
        then total
        else (elim (lookup dg.address candidates) as (λ _. ℤ) [
          | none ↦ total
          | some p_rep ↦ with_reward p_rep
        ]) in
      add_delegations start end total' rest

  -- The account after the calculation, and the reward, if there was one to make.
  pub record Calculated : Type 0 where
    pub account : IScoreData
    pub reward : Option ℤ

  unfoldable pub calculate_to : ℕ → IScoreData → Calculated
  unfolding add_delegations
  calculate_to block_height ia =
      if leb block_height ia.block_height
      then record { account = ia; reward = none }
      else (let total = add_delegations ia.block_height block_height (pos 0) ia.delegations in
          record {
            account = record {
              i_score = if is_zero total then ia.i_score else ia.i_score +ℤ total;
              block_height = block_height;
              delegations = ia.delegations;
            };
            reward = some total;
          })

  unfoldable pub calculate_i_score : ℕ → IScoreData → Calculated
  unfolding calculate_to
  calculate_i_score block_height ia =
      calculate_to (if block_height == 0 then wrap64 (ia.block_height + 1) else block_height) ia
