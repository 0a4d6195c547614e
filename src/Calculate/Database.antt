-- ===== src/Calculate/Database.antt =====
-- calculateDB of core/msg_calculate.go: every account of a query DB is written to the calculate DB
-- with its reward. The accounts are those of the sub-DB that a test of addresses selects. The hash
-- function is a parameter: `absorb` takes an account; `zero_hash` is the 64 zero bytes that no hash
-- is read into. `quit` tells what the cancellation channel says at each check.
pub mod Batched
pub mod Carried
pub mod Accounts
pub mod Totals
use rewardcalculator.Base.{
  ℕ, nat_eq, ◌+◌, Bool, true, Option, none, some, List, [], ◌∷◌, ltb, ◌==◌, if◌then◌else◌,
}
use rewardcalculator.Base.Int.{ℤ, pos}
use rewardcalculator.Base.Words.{wrap64}
use rewardcalculator.Account.Types.{IScoreData}
use rewardcalculator.Db.Engine.{Engine}
use rewardcalculator.Db.Batch.{Batches}
use rewardcalculator.Context.Governance.{GovernanceVariable}
use rewardcalculator.Context.Candidates.{PRepCandidate}
use rewardcalculator.Calculate.Delegation.{Calculated, calculate_i_score}
use rewardcalculator.Statistics.{
  Statistics, new_statistics, increase, field_accounts, field_beta3, uint64, hex_int,
}

module _ {H : Type 0} (new_hash zero_hash : H) (absorb : H → ℕ → IScoreData → H)
    (candidates : List (ℕ × PRepCandidate)) (gvs : List GovernanceVariable)
    (G : Engine ℕ IScoreData) (T : Batches G) where
  -- The variables of the loop.
  pub record Loop : Type 0 where
    pub table : G.Table
    pub batch : T.Batch
    pub entries : ℕ
    pub count : ℕ
    pub stats : Statistics
    pub hash : H

  -- With a batch, the accounts are kept until there are `batch_count` of them.
  unfoldable pub write : ℕ → ℕ → IScoreData → Loop → Loop
  write batch_count address ia s =
      if ltb 0 batch_count
      then (let batch = T.set s.batch address ia in
          if s.entries == batch_count
          then record s { table = T.write batch s.table; batch = T.new; entries = 0 }
          else record s { batch = batch })
      else record s { table = G.set s.table address ia }

  -- One entry, from `stats.Increase("Accounts", uint64(1))` to the end of the round.
  unfoldable pub write_calculated : ℕ → ℕ → Calculated candidates gvs → Loop → Loop
  unfolding write
  write_calculated batch_count address c s = elim c.reward as (λ _. Loop) [
    | none ↦ s
    | some reward ↦
        let s' = write batch_count address c.account s in
        record s' {
          count = wrap64 (s'.count + 1);
          stats = (increase s'.stats field_beta3 (hex_int reward)).0;
          hash = absorb s'.hash address c.account;
        }
  ]

  unfoldable pub step : ℕ → ℕ → ℕ → IScoreData → Loop → Loop
  unfolding write_calculated
  step batch_count block_height address ia s =
      let counted = record s { stats = (increase s.stats field_accounts (uint64 1)).0 } in
      let s' =
        write_calculated batch_count address (calculate_i_score candidates gvs block_height ia)
          counted in
      record s' { entries = wrap64 (s'.entries + 1) }

  -- The loop, and whether it was interrupted. `i` counts the checks of the channel.
  unfoldable pub run : (ℕ → Bool) → ℕ → ℕ → ℕ → List (ℕ × IScoreData) → Loop → Loop × Bool
  unfolding step
  run quit i batch_count block_height [] s = (s, Bool.false)
  run quit i batch_count block_height ((address, ia) ∷ rest) s =
      let more =
        run quit (i + 1) batch_count block_height rest
          (step batch_count block_height address ia s) in
      if quit i then (s, Bool.true) else more

  abbrev pub start : G.Table → Loop
  start table = record {
    table = table;
    batch = T.new;
    entries = 0;
    count = 0;
    stats = new_statistics;
    hash = new_hash;
  }

  -- The calculate DB after the call, and what the call returns: the count, the statistics and what
  -- the hash function has taken, `none` where the call was interrupted.
  pub record Result : Type 0 where
    pub table : G.Table
    pub count : ℕ
    pub stats : Statistics
    pub state_hash : Option H

  abbrev pub finish : ℕ → Loop × Bool → Result
  finish batch_count (s, true) = record {
    table = s.table;
    count = 0;
    stats = s.stats;
    state_hash = none;
  }
  finish batch_count (s, Bool.false) = record {
    table = if ltb 0 batch_count then T.write s.batch s.table else s.table;
    count = s.count;
    stats = s.stats;
    state_hash = some (if s.count == 0 then zero_hash else s.hash);
  }

  unfoldable pub calculate_db : (ℕ → Bool) → ℕ → ℕ → (ℕ → Bool) → G.Table → G.Table → Result
  unfolding run
  calculate_db quit batch_count block_height in_sub_db read_db write_db =
      finish batch_count
        (run quit 0 batch_count block_height (G.iterate read_db in_sub_db) (start write_db))
