-- ===== src/Calculate/Calculation/Conserved.antt =====
-- What the statistics of a whole calculation count.
use rewardcalculator.Base.{
  ℕ, nat_eq, ◌<◌, ◌≡◌, refl, ◌∙◌, arith, Bool, true, false, Option, none, some, List, [],
}
use rewardcalculator.Base.Int.{ℤ, pos, ◌+ℤ◌, int_laws}
use rewardcalculator.Account.Types.{IScoreData}
use rewardcalculator.Db.Engine.{Engine}
use rewardcalculator.Db.Batch.{Batches}
use rewardcalculator.Calculate.Total.{Distinct, sum_scores, sum_scores-ext, sum_scores-none, total}
use rewardcalculator.Calculate.Database.Totals.{restricted, AreBelow, AreAmong}
use rewardcalculator.Calculate.Transactions.{calculate_iiss_tx}
use rewardcalculator.Calculate.Transactions as Transactions
use rewardcalculator.Calculate.Transactions.Effect.{calculate_iiss_tx-Balances}
use rewardcalculator.Calculate.Transactions.Effect as TransactionsEffect
use rewardcalculator.Calculate.Produce.{collect_rewards, calculate_iiss_block_produce}
use rewardcalculator.Calculate.Produce as Produce
use rewardcalculator.Calculate.Produce.Effect.{calculate_iiss_block_produce-total}
use rewardcalculator.Calculate.Produce.Effect as ProduceEffect
use rewardcalculator.Calculate.PReps.{calculate_prep_reward}
use rewardcalculator.Calculate.PReps as PReps
use rewardcalculator.Calculate.PReps.Effect.{AllListed, calculate_prep_reward-total}
use rewardcalculator.Statistics.{
  Statistics, new_statistics, increase, get_field, set, field_beta1, field_beta3,
}
use rewardcalculator.Calculate.Calculation.{
  Input, Copied, Output, add_statistics, sum_statistics, calculate_rewards, calculate_all,
}
use rewardcalculator.Calculate.Calculation.Copies.{
  sum_beta3, in_range, AllDone, copies, calculate_dbs-total,
}
use rewardcalculator.Calculate.Calculation.Sums.{
  nothing_more, IsSplit, new_statistics-IsSplit, beta1-IsSplit, beta2-IsSplit, beta3-IsSplit,
  sum_statistics-IsSplit, total_reward-sum_statistics,
}

reassociate :
    (q b3 rtx rbp rpr : ℤ)
    → pos 0 +ℤ (q +ℤ b3) +ℤ rtx +ℤ rbp +ℤ rpr ≡ q +ℤ (pos 0 +ℤ b3 +ℤ rtx +ℤ rbp +ℤ rpr)
reassociate q b3 rtx rbp rpr = grind int_laws

-- The parts of a calculation one after the other.
all_parts :
    (q copied tx bp pr b3 rtx rbp rpr : ℤ)
    → copied ≡ pos 0 +ℤ (q +ℤ b3)
    → tx +ℤ pos 0 ≡ copied +ℤ rtx
    → bp ≡ tx +ℤ rbp
    → pr ≡ bp +ℤ rpr
    → pr ≡ q +ℤ (pos 0 +ℤ b3 +ℤ rtx +ℤ rbp +ℤ rpr)
all_parts q copied tx bp pr b3 rtx rbp rpr h k m n =
    let tx_eq : tx ≡ copied +ℤ rtx = nothing_more tx ∙ k in
    rw (n, m, tx_eq, h) (reassociate q b3 rtx rbp rpr)

module _ {H : Type 0} (new_hash zero_hash : H) (absorb : H → ℕ → IScoreData → H)
    (absorb_hash : H → H → H) (produce_hash : List (ℕ × IScoreData) → H) (address_index : ℕ → ℕ)
    (G : Engine ℕ IScoreData) (T : Batches G) where
  abbrev pub all :
      (ℕ → ℕ → Bool)
      → Bool
      → ℕ
      → ℕ
      → Input
      → G.Table
      → G.Table
      → G.Table
        × Option (Output new_hash zero_hash absorb absorb_hash produce_hash address_index G T)
  all quit cancelled batch_count db_count input query calc =
      calculate_all new_hash zero_hash absorb absorb_hash produce_hash address_index G T quit
        cancelled batch_count db_count input query calc

  abbrev pub rewards :
      Input
      → Copied new_hash zero_hash absorb absorb_hash produce_hash address_index G T
      → Output new_hash zero_hash absorb absorb_hash produce_hash address_index G T
  rewards input copied =
      calculate_rewards new_hash zero_hash absorb absorb_hash produce_hash address_index G T input
        copied

  abbrev CopiedDbs : Type 0
  CopiedDbs = Copied new_hash zero_hash absorb absorb_hash produce_hash address_index G T

  abbrev tx :
      (input : Input) → CopiedDbs → Transactions.Progress absorb input.candidates input.gvs G
  tx input copied =
      calculate_iiss_tx absorb input.candidates input.gvs G input.block_height input.txs
        (record { table = copied.table; new_account = 0; stats = pos 0; hash = new_hash })

  abbrev bp : Input → CopiedDbs → Produce.Progress G
  bp input copied =
      calculate_iiss_block_produce G input.gvs input.block_height input.blocks
        (tx input copied).table

  abbrev pr : Input → CopiedDbs → PReps.Progress new_hash absorb absorb_hash G
  pr input copied =
      calculate_prep_reward new_hash absorb absorb_hash G input.revision input.gvs input.preps
        input.calc_done input.block_height (bp input copied).table

  abbrev stats_tx : Input → CopiedDbs → Statistics
  stats_tx input copied =
      add_statistics field_beta3 (tx input copied).new_account (tx input copied).stats
        (sum_statistics copied.stats_list new_statistics)

  abbrev stats_bp : Input → CopiedDbs → Statistics
  stats_bp input copied =
      add_statistics field_beta1 (bp input copied).new_account (bp input copied).total_reward
        (stats_tx input copied)

  pub rewards-IsSplit : (input : Input) (copied : CopiedDbs) → IsSplit (rewards input copied).stats
  unfolding calculate_rewards
  rewards-IsSplit input copied =
      beta2-IsSplit (pr input copied).new_account (pr input copied).total_reward
        (stats_bp input copied)
        (beta1-IsSplit (bp input copied).new_account (bp input copied).total_reward
          (stats_tx input copied)
          (beta3-IsSplit (tx input copied).new_account (tx input copied).stats
            (sum_statistics copied.stats_list new_statistics)
            (sum_statistics-IsSplit copied.stats_list new_statistics new_statistics-IsSplit)))

  total_reward-rewards :
      (input : Input) (copied : CopiedDbs)
      → (rewards input copied).stats.total_reward
        ≡ pos 0
          +ℤ sum_beta3 copied.stats_list
          +ℤ (tx input copied).stats
          +ℤ (bp input copied).total_reward
          +ℤ (pr input copied).total_reward
  unfolding calculate_rewards add_statistics increase get_field set
  total_reward-rewards input copied =
      rw (total_reward-sum_statistics copied.stats_list new_statistics) refl

  -- The total of the statistics of a calculation that gives a result is the sum of the three kinds
  -- of rewards.
  calculate_all-IsSplit :
      (quit : ℕ → ℕ → Bool) (cancelled : Bool) (batch_count db_count : ℕ) (input : Input)
      (query calc : G.Table)
      (output : Output new_hash zero_hash absorb absorb_hash produce_hash address_index G T)
      → (all quit cancelled batch_count db_count input query calc).1 ≡ some output
      → output.stats.total_reward ≡ output.stats.beta1 +ℤ output.stats.beta2 +ℤ output.stats.beta3
  unfolding calculate_all
  calculate_all-IsSplit quit true batch_count db_count input query calc output h = cc
  calculate_all-IsSplit quit false batch_count db_count input query calc output h =
      let copied =
        copies new_hash zero_hash absorb absorb_hash produce_hash address_index G T quit batch_count
          input query db_count 0 calc in
      let is : rewards input copied ≡ output = cc in rw (← is) (rewards-IsSplit input copied)

  -- The accounts of all transactions, blocks and P-Rep lists are among some accounts.
  abbrev pub AllAmong : List ℕ → Input → Type 0
  AllAmong l input =
      TransactionsEffect.AreListed l input.txs
      × ProduceEffect.AreListed G l (collect_rewards input.gvs input.blocks [])
      × AllListed l input.preps

  rewards-total :
      (l : List ℕ) (input : Input) (copied : CopiedDbs) (q : ℤ)
      → Distinct l
      → AllAmong l input
      → total G l copied.table ≡ pos 0 +ℤ (q +ℤ sum_beta3 copied.stats_list)
      → total G l (rewards input copied).table ≡ q +ℤ (rewards input copied).stats.total_reward
  unfolding calculate_rewards
  rewards-total l input copied q d listed h =
      let produced =
        calculate_iiss_block_produce-total G input.gvs input.block_height input.blocks
          (tx input copied).table l d listed.1 in
      let bp_total : total G l (bp input copied).table
          ≡ total G l (tx input copied).table +ℤ (bp input copied).total_reward =
        rw produced.1 produced.0 in
      rw (total_reward-rewards input copied) (
        all_parts q (total G l copied.table) (total G l (tx input copied).table)
          (total G l (bp input copied).table) (total G l (pr input copied).table)
          (sum_beta3 copied.stats_list) (tx input copied).stats (bp input copied).total_reward
          (pr input copied).total_reward h
          (calculate_iiss_tx-Balances absorb input.candidates input.gvs G l input.block_height
            input.txs
            (record { table = copied.table; new_account = 0; stats = pos 0; hash = new_hash }) d
            listed.0)
          bp_total
          (calculate_prep_reward-total new_hash absorb absorb_hash G l input.revision input.gvs
            input.preps input.calc_done input.block_height (bp input copied).table d listed.2))

  -- Of a calculation that is not cancelled, over sub-DBs none of which is interrupted and which
  -- have every address: where the accounts of the query DBs, of the transactions, the blocks and
  -- the P-Rep lists are among some accounts, each listed once, the calculate DBs are empty and the
  -- accounts of the query DBs are below the block height, the I-Scores of these accounts after it
  -- are those of the query DBs and the total of the statistics.
  pub calculate_all-total :
      (quit : ℕ → ℕ → Bool) (batch_count db_count : ℕ) (input : Input) (query calc : G.Table)
      (l : List ℕ)
      (output : Output new_hash zero_hash absorb absorb_hash produce_hash address_index G T)
      → Distinct l
      → AreAmong l (G.get query)
      → AreBelow input.block_height (G.get query)
      → AllAmong l input
      → ((a : ℕ) → G.get calc a ≡ none)
      → ((a : ℕ) → address_index a < db_count)
      → AllDone new_hash zero_hash absorb absorb_hash produce_hash address_index G T
          (copies new_hash zero_hash absorb absorb_hash produce_hash address_index G T quit
            batch_count input query db_count 0 calc).state_hash_list
      → (all quit false batch_count db_count input query calc).1 ≡ some output
      → total G l output.table ≡ total G l query +ℤ output.stats.total_reward
  unfolding calculate_all
  calculate_all-total quit batch_count db_count input query calc l output d among below listed empty
        inside done h =
      let copied =
        copies new_hash zero_hash absorb absorb_hash produce_hash address_index G T quit batch_count
          input query db_count 0 calc in
      let is : rewards input copied ≡ output = cc in
      let everywhere : (a : ℕ)
          → restricted (in_range address_index 0 db_count) (G.get query) a ≡ G.get query a =
        λ a.
          (let within : in_range address_index 0 db_count a ≡ true = ground (arith, inside a) in
            rw within refl) in
      let start : total G l calc ≡ pos 0 = sum_scores-none l (G.get calc) empty in
      let whole : sum_scores l (restricted (in_range address_index 0 db_count) (G.get query))
          ≡ total G l query =
        sum_scores-ext l (restricted (in_range address_index 0 db_count) (G.get query))
          (G.get query) everywhere in
      let copied-total =
        calculate_dbs-total new_hash zero_hash absorb absorb_hash produce_hash address_index G T l
          quit batch_count input query db_count 0 calc d among below (λ a _. empty a) done in
      rw (← is) (
        rewards-total l input copied (total G l query) d listed
          (rw (← start, ← whole) copied-total))
