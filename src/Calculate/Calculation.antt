-- ===== src/Calculate/Calculation.antt =====
-- DoCalculate of core/msg_calculate.go, from the goroutines of the sub-DBs on: the copy of every
-- sub-DB, the rewards on top of it, and the statistics and the state hash of all. The sub-DBs are
-- the ranges of one store that a function from addresses to their numbers gives. A goroutine works
-- on its own sub-DB only, so the copies are made one after the other.
pub mod Copies
pub mod Sums
pub mod Conserved
pub mod Finished
use rewardcalculator.Base.{
  ℕ, nat_eq, zero, suc, ◌+◌, Bool, true, false, Option, none, some, List, [], ◌∷◌, ◌==◌,
}
use rewardcalculator.Base.Int.{ℤ, pos}
use rewardcalculator.Account.Types.{IScoreData}
use rewardcalculator.Db.Engine.{Engine}
use rewardcalculator.Db.Batch.{Batches}
use rewardcalculator.Context.Governance.{GovernanceVariable, PRep}
use rewardcalculator.Context.Candidates.{PRepCandidate, IissTx}
use rewardcalculator.Calculate.Database.{calculate_db}
use rewardcalculator.Calculate.Database as Database
use rewardcalculator.Calculate.Transactions.{calculate_iiss_tx}
use rewardcalculator.Calculate.Transactions as Transactions
use rewardcalculator.Calculate.Produce.{IissBlockProduceInfo, calculate_iiss_block_produce}
use rewardcalculator.Calculate.Produce as Produce
use rewardcalculator.Calculate.PReps.{calculate_prep_reward}
use rewardcalculator.Calculate.PReps as PReps
use rewardcalculator.Statistics.{
  Statistics, Field, new_statistics, increase, field_accounts, field_total_reward, field_beta1,
  field_beta2, field_beta3, uint64, hex_int,
}

-- Three calls of Increase: the accounts, the rewards of one kind, and their total.
unfoldable pub add_statistics : Field → ℕ → ℤ → Statistics → Statistics
unfolding increase
add_statistics beta accounts reward stats =
    (increase (increase (increase stats field_accounts (uint64 accounts)).0 beta (hex_int reward)).0
      field_total_reward (hex_int reward)).0

-- The statistics of the sub-DBs.
unfoldable pub sum_statistics : List Statistics → Statistics → Statistics
unfolding add_statistics
sum_statistics [] stats = stats
sum_statistics (s ∷ rest) stats =
    sum_statistics rest (add_statistics field_beta3 s.accounts s.beta3 stats)

-- What DoCalculate takes from the IISS data and the context.
pub record Input : Type 0 where
  pub block_height : ℕ
  pub calc_done : ℕ
  pub revision : ℕ
  pub gvs : List GovernanceVariable
  pub preps : List PRep
  pub candidates : List (ℕ × PRepCandidate)
  pub txs : List IissTx
  pub blocks : List IissBlockProduceInfo

-- `produce_hash` is the state hash of the block produce rewards, over accounts that a library
-- sorts; `address_index` is the sub-DB of an address.
module _ {H : Type 0} (new_hash zero_hash : H) (absorb : H → ℕ → IScoreData → H)
    (absorb_hash : H → H → H) (produce_hash : List (ℕ × IScoreData) → H) (address_index : ℕ → ℕ)
    (G : Engine ℕ IScoreData) (T : Batches G) where
  -- The calculate DBs, and the statistics and hashes of the sub-DBs.
  pub record Copied : Type 0 where
    pub table : G.Table
    pub stats_list : List Statistics
    pub state_hash_list : List (Option H)

  -- The sub-DBs from number `i` on. `quit` has the number of the sub-DB first.
  unfoldable pub calculate_dbs : (ℕ → ℕ → Bool) → ℕ → Input → G.Table → ℕ → ℕ → G.Table → Copied
  unfolding calculate_db
  calculate_dbs quit batch_count input query zero i calc = record {
    table = calc;
    stats_list = [];
    state_hash_list = [];
  }
  calculate_dbs quit batch_count input query (suc left) i calc =
      let result =
        calculate_db new_hash zero_hash absorb input.candidates input.gvs G T (quit i) batch_count
          input.block_height (λ address. address_index address == i) query calc in
      let rest = calculate_dbs quit batch_count input query left (i + 1) result.table in
      record {
        table = rest.table;
        stats_list = result.stats ∷ rest.stats_list;
        state_hash_list = result.state_hash ∷ rest.state_hash_list;
      }

  -- A sub-DB that was interrupted has no hash.
  abbrev pub absorb_all : List (Option H) → H → H
  absorb_all [] h = h
  absorb_all (none ∷ rest) h = absorb_all rest h
  absorb_all (some s ∷ rest) h = absorb_all rest (absorb_hash h s)

  pub record Output : Type 0 where
    pub table : G.Table
    pub stats : Statistics
    pub state_hash : H

  -- What follows the copies when there was no cancellation.
  unfoldable pub calculate_rewards : Input → Copied → Output
  unfolding sum_statistics add_statistics calculate_iiss_tx calculate_iiss_block_produce
      calculate_prep_reward
  calculate_rewards input copied =
      let stats = sum_statistics copied.stats_list new_statistics in
      let tx =
        calculate_iiss_tx absorb input.candidates input.gvs G input.block_height input.txs
          (record { table = copied.table; new_account = 0; stats = pos 0; hash = new_hash }) in
      let stats_tx = add_statistics field_beta3 tx.new_account tx.stats stats in
      let bp = calculate_iiss_block_produce G input.gvs input.block_height input.blocks tx.table in
      let stats_bp = add_statistics field_beta1 bp.new_account bp.total_reward stats_tx in
      let pr =
        calculate_prep_reward new_hash absorb absorb_hash G input.revision input.gvs input.preps
          input.calc_done input.block_height bp.table in
      record {
        table = pr.table;
        stats = add_statistics field_beta2 pr.new_account pr.total_reward stats_bp;
        state_hash = absorb_all copied.state_hash_list (
            absorb_hash (absorb_hash (absorb_hash new_hash tx.hash) (produce_hash bp.ia_slice))
              pr.hash);
      }

  -- Both, over `db_count` sub-DBs. `cancelled` tells whether the channel has changed in between.
  unfoldable pub calculate_all :
      (ℕ → ℕ → Bool) → Bool → ℕ → ℕ → Input → G.Table → G.Table → G.Table × Option Output
  unfolding calculate_dbs calculate_rewards
  calculate_all quit cancelled batch_count db_count input query calc =
      let copied = calculate_dbs quit batch_count input query db_count 0 calc in
      elim cancelled as (λ _. G.Table × Option Output) [
        | true ↦ (copied.table, none)
        | false ↦ (copied.table, some (calculate_rewards input copied))
      ]
