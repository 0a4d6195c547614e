-- ===== src/Calculate/CopyTests.antt =====
-- The copy of the query DBs and a whole calculation at concrete values.
use rewardcalculator.Base.{
  ℕ, nat_eq, ◌<◌, ◌%◌, some, ◌≡◌, refl, ◌≢◌, arith, Bool, true, false, none, List, [], ◌∷◌,
}
use rewardcalculator.Base.Int.{pos, ◌+ℤ◌}
use rewardcalculator.Account.Types.{IScoreData}
use rewardcalculator.Context.Periods.{get_by_block_height}
use rewardcalculator.Calculate.Total.{total}
use rewardcalculator.Calculate.Transactions.Effect.{AreListed, Balances, calculate_iiss_tx-Balances}
use rewardcalculator.Calculate.Produce.{collect_rewards}
use rewardcalculator.Calculate.Produce.Effect.{
  paid, sum_block_rewards, calculate_iiss_block_produce-total,
}
use rewardcalculator.Calculate.Produce.Effect as Produced
use rewardcalculator.Db.Batch.{Batches, listed}
use rewardcalculator.Calculate.Database.{calculate_db, run}
use rewardcalculator.Calculate.Database.Batched.{result, calculate_db_batched}
use rewardcalculator.Calculate.Database.Accounts.{brought, calculate_db-carried}
use rewardcalculator.Calculate.Database.Totals.{AreAmong, AreBelow}
use rewardcalculator.Calculate.PReps.Effect.{AllListed}
use rewardcalculator.Calculate.Transactions.Effect as Paid
use rewardcalculator.Calculate.Calculation.{Input, Output, calculate_dbs, calculate_all}
use rewardcalculator.Calculate.Calculation.Copies.{AllDone, copies}
use rewardcalculator.Calculate.Calculation.Conserved.{all, rewards, AllAmong, calculate_all-total}
use rewardcalculator.Calculate.Tests.{
  gv, txs, candidates, blocks, preps, accounts, no_accounts, count, add_hash,
}

-- Two accounts, of which the first delegates.
abbrev queried : accounts.Table
queried =
    accounts.set
      (accounts.set no_accounts 7 (record {
        delegations = record { address = 3; delegate = pos 1000000 } ∷ [];
        block_height = 12;
        i_score = pos 5;
      }))
      9 (record { delegations = []; block_height = 12; i_score = pos 8 })

abbrev never : ℕ → Bool
never i = false

abbrev every : ℕ → Bool
every address = true

abbrev listed_batches : Batches accounts
listed_batches = listed accounts

not_interrupted :
    (batch_count : ℕ)
    → (result 0 0 count candidates
        (gv ∷ [])
        accounts
        listed_batches
        never
        batch_count
        40
        every
        queried
        no_accounts).state_hash
      ≢ none
unfolding calculate_db run
not_interrupted batch_count e = cc

calculate_db_batched_example :
    let r =
      result 0 0 count candidates
        (gv ∷ [])
        accounts
        listed_batches
        never
        10
        40
        every
        queried
        no_accounts in
    let r' =
      result 0 0 count candidates
        (gv ∷ [])
        accounts
        listed_batches
        never
        0
        40
        every
        queried
        no_accounts in
    (accounts.get r.table 7 ≡ accounts.get r'.table 7)
    × (r.count ≡ r'.count)
    × (r.stats ≡ r'.stats)
    × (r.state_hash ≡ r'.state_hash)
calculate_db_batched_example =
    calculate_db_batched 0 0 count candidates (gv ∷ []) accounts listed_batches never 10 40 every
      queried no_accounts (omega arith) (not_interrupted 10) 7

calculate_db-carried_example :
    accounts.get
      (result 0 0 count candidates
        (gv ∷ [])
        accounts
        listed_batches
        never
        10
        40
        every
        queried
        no_accounts).table
      7
    ≡ brought candidates (gv ∷ []) 40 (accounts.get queried 7) none
calculate_db-carried_example =
    calculate_db-carried 0 0 count candidates (gv ∷ []) accounts listed_batches never 10 40 every
      queried no_accounts (not_interrupted 10) 7

queried-AreAmong : AreAmong (7 ∷ 9 ∷ []) (accounts.get queried)
queried-AreAmong a h = ground (arith, h)

queried-AreBelow : AreBelow 40 (accounts.get queried)
queried-AreBelow a ia h = ground (arith, h)

-- Two sub-DBs, the even addresses and the odd ones.
abbrev parity : ℕ → ℕ
parity a = a % 2

abbrev never_any : ℕ → ℕ → Bool
never_any i j = false

abbrev last_hash : List (ℕ × IScoreData) → ℕ
last_hash l = 0

abbrev input : Input
input = record {
  block_height = 40;
  calc_done = 10;
  revision = 8;
  gvs = gv ∷ [];
  preps = preps;
  candidates = candidates;
  txs = txs;
  blocks = blocks;
}

abbrev holders : List ℕ
holders = 3 ∷ 4 ∷ 5 ∷ 7 ∷ 9 ∷ []

abbrev done : Output 0 0 count add_hash last_hash parity accounts listed_batches
done = rewards 0 0 count add_hash last_hash parity accounts listed_batches input (
    copies 0 0 count add_hash last_hash parity accounts listed_batches never_any 10 input queried 2
      0 no_accounts)

is_done :
    (all 0 0 count add_hash last_hash parity accounts listed_batches never_any false 10 2 input
      queried no_accounts).1
    ≡ some done
unfolding calculate_all
is_done = refl

all_done :
    AllDone 0 0 count add_hash last_hash parity accounts listed_batches
      (copies 0 0 count add_hash last_hash parity accounts listed_batches never_any 10 input queried
        2 0 no_accounts).state_hash_list
unfolding calculate_dbs calculate_db run
all_done = ((λ e. cc), ((λ e. cc), tt))

holders-AllAmong :
    AllAmong 0 0 count add_hash last_hash parity accounts listed_batches holders input
unfolding Paid.AreListed Produced.AreListed AllListed collect_rewards get_by_block_height
holders-AllAmong = ((refl, (refl, tt)), (refl, (refl, (refl, tt))), ((refl, (refl, tt)), tt))

queried_among_holders : AreAmong holders (accounts.get queried)
queried_among_holders a h = ground (arith, h)

even_or_odd : (a : ℕ) → parity a < 2
even_or_odd a = omega arith

calculate_all-total_example :
    total accounts holders done.table ≡ total accounts holders queried +ℤ done.stats.total_reward
calculate_all-total_example =
    calculate_all-total 0 0 count add_hash last_hash parity accounts listed_batches never_any 10 2
      input queried no_accounts holders done (refl, (refl, (refl, (refl, (refl, tt)))))
      queried_among_holders queried-AreBelow holders-AllAmong (λ a. refl) even_or_odd all_done
      is_done
