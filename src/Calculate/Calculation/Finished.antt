-- ===== src/Calculate/Calculation/Finished.antt =====
-- A calculation whose cancellation channel says nothing.
use rewardcalculator.Base.{
  ℕ, nat_eq, zero, suc, ◌+◌, ◌≡◌, ◌≢◌, refl, Bool, true, false, none, List, [], ◌∷◌,
}
use rewardcalculator.Account.Types.{IScoreData}
use rewardcalculator.Db.Engine.{Engine}
use rewardcalculator.Db.Batch.{Batches}
use rewardcalculator.Context.Governance.{GovernanceVariable}
use rewardcalculator.Context.Candidates.{PRepCandidate}
use rewardcalculator.Calculate.Database.{calculate_db, run, finish, start, Loop}
use rewardcalculator.Calculate.Database.Batched.{result}
use rewardcalculator.Calculate.Calculation.{Input, calculate_dbs}
use rewardcalculator.Calculate.Calculation.Copies.{AllDone, copies}

module _ {H : Type 0} (new_hash zero_hash : H) (absorb : H → ℕ → IScoreData → H)
    (candidates : List (ℕ × PRepCandidate)) (gvs : List GovernanceVariable)
    (G : Engine ℕ IScoreData) (T : Batches G) where
  run-to_end :
      (quit : ℕ → Bool) (i batch_count block_height : ℕ) (entries : List (ℕ × IScoreData))
      (s : Loop new_hash zero_hash absorb candidates gvs G T)
      → ((j : ℕ) → quit j ≡ false)
      → (run new_hash zero_hash absorb candidates gvs G T quit i batch_count block_height entries
          s).1
        ≡ false
  unfolding run
  run-to_end quit i batch_count block_height [] s h = refl
  run-to_end quit i batch_count block_height ((address, ia) ∷ rest) s h =
      rw (h i) (run-to_end quit (i + 1) batch_count block_height rest _ h)

  finish-hash :
      (batch_count : ℕ) (r : Loop new_hash zero_hash absorb candidates gvs G T × Bool)
      → r.1 ≡ false
      → (finish new_hash zero_hash absorb candidates gvs G T batch_count r).state_hash ≢ none
  finish-hash batch_count (s, true) h = cc
  finish-hash batch_count (s, false) h = λ e. cc

  result-done :
      (quit : ℕ → Bool) (batch_count block_height : ℕ) (in_sub_db : ℕ → Bool)
      (read_db write_db : G.Table)
      → ((j : ℕ) → quit j ≡ false)
      → (result new_hash zero_hash absorb candidates gvs G T quit batch_count block_height in_sub_db
          read_db write_db).state_hash
        ≢ none
  unfolding calculate_db
  result-done quit batch_count block_height in_sub_db read_db write_db h =
      finish-hash batch_count
        (run new_hash zero_hash absorb candidates gvs G T quit 0 batch_count block_height
          (G.iterate read_db in_sub_db)
          (start new_hash zero_hash absorb candidates gvs G T write_db))
        (run-to_end quit 0 batch_count block_height (G.iterate read_db in_sub_db)
          (start new_hash zero_hash absorb candidates gvs G T write_db) h)

module _ {H : Type 0} (new_hash zero_hash : H) (absorb : H → ℕ → IScoreData → H)
    (absorb_hash : H → H → H) (produce_hash : List (ℕ × IScoreData) → H) (address_index : ℕ → ℕ)
    (G : Engine ℕ IScoreData) (T : Batches G) where
  pub copies-AllDone :
      (quit : ℕ → ℕ → Bool) (batch_count : ℕ) (input : Input) (query : G.Table) (left i : ℕ)
      (calc : G.Table)
      → ((j k : ℕ) → quit j k ≡ false)
      → AllDone new_hash zero_hash absorb absorb_hash produce_hash address_index G T
          (copies new_hash zero_hash absorb absorb_hash produce_hash address_index G T quit
            batch_count input query left i calc).state_hash_list
  unfolding calculate_dbs
  copies-AllDone quit batch_count input query zero i calc h = tt
  copies-AllDone quit batch_count input query (suc left) i calc h = (
    result-done new_hash zero_hash absorb input.candidates input.gvs G T (quit i) batch_count
        input.block_height _ query calc (h i),
    copies-AllDone quit batch_count input query left (i + 1) _ h,
  )
