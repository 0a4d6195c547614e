-- ===== src/Calculate/Tests.antt =====
-- The calculation at concrete values: one account, one P-Rep, one governance variable.
use rewardcalculator.Base.{ℕ, nat_eq, ◌+◌, ◌-◌, ◌*◌, ◌≤◌, ◌≡◌, refl, List, [], ◌∷◌, length}
use rewardcalculator.Base.Int.{pos, ◌+ℤ◌}
use rewardcalculator.Db.Engine.{Engine}
use rewardcalculator.Db.MapDb.{empty, engine}
use rewardcalculator.Account.Types.{IScoreData}
use rewardcalculator.Context.Governance.{GovernanceVariable}
use rewardcalculator.Context.Periods.{get_by_block_height}
use rewardcalculator.Context.Candidates.{PRepCandidate, delegate, IissTx}
use rewardcalculator.Calculate.Delegation.{reward_divider, calculate_delegation_reward}
use rewardcalculator.Calculate.Delegation.Bounds.{earned, calculate_delegation_reward_bounds}
use rewardcalculator.Calculate.Total.{total}
use rewardcalculator.Calculate.Transactions.{Progress, calculate_iiss_tx}
use rewardcalculator.Calculate.Transactions.Effect.{AreListed, Balances, calculate_iiss_tx-Balances}
use rewardcalculator.Calculate.Produce.{
  IissBlockProduceInfo, calculate_iiss_block_produce, collect_rewards,
}
use rewardcalculator.Calculate.Produce.Effect.{
  paid, sum_block_rewards, calculate_iiss_block_produce-total,
}
use rewardcalculator.Calculate.Produce.Effect as Produced
use rewardcalculator.Context.Governance.{PRep}
use rewardcalculator.Calculate.PReps.{calculate_prep_reward}
use rewardcalculator.Calculate.PReps.Effect.{AllListed, calculate_prep_reward-total}

abbrev pub gv : GovernanceVariable
gv = record {
  block_height = 10;
  calculated_incentive_rep = 3;
  reward_rep = 1200;
  main_prep_count = 22;
  sub_prep_count = 78;
  block_produce_reward = 33000;
  prep_reward = 300000;
}

abbrev p_rep : PRepCandidate
p_rep = record { start = 12; end = 0 }

calculate_delegation_reward_bounds_example :
    (r : ℕ) × (calculate_delegation_reward (gv ∷ []) (pos 1000000) 10 40 p_rep ≡ pos r)
    × (r * reward_divider ≤ earned (gv ∷ []) 1000000 10 40 p_rep)
    × (earned (gv ∷ []) 1000000 10 40 p_rep
        ≤ r * reward_divider + length (gv ∷ []) * (reward_divider - 1))
calculate_delegation_reward_bounds_example =
    calculate_delegation_reward_bounds (gv ∷ []) 1000000 10 40 p_rep (tt, tt)

abbrev pub accounts : Engine ℕ IScoreData
accounts = engine ℕ IScoreData

abbrev pub no_accounts : accounts.Table
no_accounts = empty ℕ IScoreData

-- A hash that counts what it takes.
abbrev pub count : ℕ → ℕ → IScoreData → ℕ
count h address ia = h + 1

abbrev pub txs : List IissTx
txs =
    record {
      address = 7;
      block_height = 15;
      data_type = delegate (record { address = 3; delegate = pos 1000000 } ∷ []);
    }
    ∷ record { address = 7; block_height = 20; data_type = delegate [] }
    ∷ []

abbrev pub candidates : List (ℕ × PRepCandidate)
candidates = (3, p_rep) ∷ []

abbrev start : Progress count candidates (gv ∷ []) accounts
start = record { table = no_accounts; new_account = 0; stats = pos 0; hash = 0 }

calculate_iiss_tx-Balances_example :
    Balances count candidates
      (gv ∷ [])
      accounts
      (7 ∷ [])
      start
      (calculate_iiss_tx count candidates (gv ∷ []) accounts 40 txs start)
unfolding AreListed
calculate_iiss_tx-Balances_example =
    calculate_iiss_tx-Balances count candidates (gv ∷ []) accounts (7 ∷ []) 40 txs start (refl, tt)
      (refl, (refl, tt))

abbrev pub blocks : List IissBlockProduceInfo
blocks = record { block_height = 15; generator = 3; validator = 4 ∷ 5 ∷ [] } ∷ []

calculate_iiss_block_produce-total_example :
    let after = calculate_iiss_block_produce accounts (gv ∷ []) 40 blocks no_accounts in
    (total accounts (3 ∷ 4 ∷ 5 ∷ []) after.table
      ≡ total accounts (3 ∷ 4 ∷ 5 ∷ []) no_accounts +ℤ pos (paid (gv ∷ []) blocks))
    × (after.total_reward ≡ pos (paid (gv ∷ []) blocks))
    × (sum_block_rewards (gv ∷ []) blocks ≤ paid (gv ∷ []) blocks)
    × (paid (gv ∷ []) blocks ≤ 2 * sum_block_rewards (gv ∷ []) blocks)
unfolding Produced.AreListed collect_rewards get_by_block_height
calculate_iiss_block_produce-total_example =
    calculate_iiss_block_produce-total accounts (gv ∷ []) 40 blocks no_accounts (3 ∷ 4 ∷ 5 ∷ [])
      (refl, (refl, (refl, tt))) (refl, (refl, (refl, tt)))

-- One list of two P-Reps that holds from height 10 on.
abbrev pub preps : List PRep
preps =
    record {
      block_height = 10;
      total_delegation = pos 300;
      delegations =
          record { address = 3; delegated_amount = pos 100 }
          ∷ record { address = 4; delegated_amount = pos 200 }
          ∷ [];
    }
    ∷ []

abbrev pub add_hash : ℕ → ℕ → ℕ
add_hash a b = a + b

calculate_prep_reward-total_example :
    let after =
      calculate_prep_reward 0 count add_hash accounts 8 (gv ∷ []) preps 10 40 no_accounts in
    total accounts (3 ∷ 4 ∷ []) after.table
    ≡ total accounts (3 ∷ 4 ∷ []) no_accounts +ℤ after.total_reward
unfolding AllListed
calculate_prep_reward-total_example =
    calculate_prep_reward-total 0 count add_hash accounts (3 ∷ 4 ∷ []) 8 (gv ∷ []) preps 10 40
      no_accounts (refl, (refl, tt)) ((refl, (refl, tt)), tt)
