-- ===== src/Calculate/Produce.antt =====
-- calculateIISSBlockProduce of core/msg_calculate.go: the rewards of block generators and
-- validators. The rewards are collected in a Go map, here a list of addresses with rewards in some
-- order; the state hash over the sorted accounts is not modelled, but the accounts it takes are.
pub mod Effect
use rewardcalculator.Base.{
  ℕ, nat_eq, ◌+◌, ◌/◌, Option, none, some, List, [], ◌∷◌, ◌++◌, length, lookup, insert,
}
use rewardcalculator.Base.Int.{ℤ, pos, ◌+ℤ◌}
use rewardcalculator.Account.Types.{IScoreData}
use rewardcalculator.Db.Engine.{Engine}
use rewardcalculator.Context.Governance.{GovernanceVariable, get_gv_by_block_height}

pub record IissBlockProduceInfo : Type 0 where
  pub block_height : ℕ
  pub generator : ℕ
  pub validator : List ℕ

abbrev pub Rewards : Type 0
Rewards = List (ℕ × ℕ)

abbrev pub reward_in : Option ℕ → ℕ
reward_in none = 0
reward_in (some reward) = reward

unfoldable pub add_reward : ℕ → ℕ → Rewards → Rewards
add_reward address reward m = insert address (reward_in (lookup address m) + reward) m

unfoldable pub add_validators : List ℕ → ℕ → Rewards → Rewards
unfolding add_reward
add_validators [] reward m = m
add_validators (v ∷ rest) reward m = add_validators rest reward (add_reward v reward m)

-- The generator's reward, and that of the validators if there are any.
unfoldable pub reward_block : ℕ → ℕ → List ℕ → Rewards → Rewards
unfolding add_reward add_validators
reward_block reward generator [] m = add_reward generator reward m
reward_block reward generator (v ∷ validators) m =
    add_validators (v ∷ validators) (reward / length (v ∷ validators))
      (add_reward generator reward m)

abbrev pub reward_of_gv : Option GovernanceVariable → IissBlockProduceInfo → Rewards → Rewards
reward_of_gv none bp m = m
reward_of_gv (some gv) bp m = reward_block gv.block_produce_reward bp.generator bp.validator m

unfoldable pub collect_rewards :
    List GovernanceVariable → List IissBlockProduceInfo → Rewards → Rewards
unfolding reward_block get_gv_by_block_height
collect_rewards gvs [] m = m
collect_rewards gvs (bp ∷ rest) m =
    collect_rewards gvs rest (reward_of_gv (get_gv_by_block_height bp.block_height gvs) bp m)

module _ (G : Engine ℕ IScoreData) where
  pub record Progress : Type 0 where
    pub table : G.Table
    pub new_account : ℕ
    pub total_reward : ℤ
    pub ia_slice : List (ℕ × IScoreData)

  abbrev pub rewarded : ℕ → ℕ → Option IScoreData → IScoreData
  rewarded block_height reward none = record {
    i_score = pos reward;
    block_height = block_height;
    delegations = [];
  }
  rewarded block_height reward (some ia) = record ia { i_score = ia.i_score +ℤ pos reward }

  abbrev pub count_new : Option IScoreData → ℕ → ℕ
  count_new none n = n + 1
  count_new (some ia) n = n

  unfoldable pub write_rewards : ℕ → Rewards → Progress → Progress
  write_rewards block_height [] s = s
  write_rewards block_height ((address, reward) ∷ rest) s =
      let old = G.get s.table address in
      let ia = rewarded block_height reward old in
      write_rewards block_height rest (record {
        table = G.set s.table address ia;
        new_account = count_new old s.new_account;
        total_reward = s.total_reward +ℤ pos reward;
        ia_slice = s.ia_slice ++ (address, ia) ∷ [];
      })

  unfoldable pub calculate_iiss_block_produce :
      List GovernanceVariable → ℕ → List IissBlockProduceInfo → G.Table → Progress
  unfolding collect_rewards write_rewards
  calculate_iiss_block_produce gvs block_height bps table =
      write_rewards block_height (collect_rewards gvs bps [])
        (record { table = table; new_account = 0; total_reward = pos 0; ia_slice = [] })
