-- ===== src/Query/Results/Stored.antt =====
-- What QUERY_CALCULATE_RESULT answers after a result is written or deleted.
use rewardcalculator.Base.{
  ℕ, nat_eq, ◌≡◌, refl, arith, Bool, Option, none, some, ◌==◌, ◌&&◌, if◌then◌else◌, Bool-cases, inl,
  inr,
}
use rewardcalculator.Base.Int.{pos}
use rewardcalculator.Db.Engine.{Engine}
use rewardcalculator.Context.Info.{IScoreDb, is_calculating}
use rewardcalculator.Statistics.{Statistics}
use rewardcalculator.Query.Results.{
  CrData, QueryCalculateResultResponse, succeeded, invalid_bh, new_result, write_calculation_result,
  delete_calculation_result, do_query_calculate_result, from_result,
}

module _ (H : Type 0) (R : Engine ℕ (CrData H)) where
  abbrev pub answer : IScoreDb → R.Table → ℕ → QueryCalculateResultResponse H
  answer idb db block_height = do_query_calculate_result H R idb db block_height

  -- The height is the one of the calculation that runs.
  abbrev pub runs_at : IScoreDb → ℕ → Bool
  runs_at idb block_height = is_calculating idb && block_height == idb.info.calculating

  -- The result of a calculation is answered with its total and its state hash once it is written,
  -- and no other height is answered otherwise than before; once it is deleted its height is
  -- answered as an invalid one. A calculation that runs at the height asked for goes before both.
  pub answer-after_write :
      (idb : IScoreDb) (db : R.Table) (written : ℕ) (stats : Statistics) (state_hash : Option H)
      (asked : ℕ)
      → let db' = write_calculation_result H R db written (some stats) state_hash in
        (answer idb db' asked ≡ (
          if runs_at idb asked
          then answer idb db asked
          else if written == asked
          then record {
            status = succeeded;
            block_height = asked;
            i_score = stats.total_reward;
            state_hash = state_hash;
          }
          else answer idb db asked))
        × (answer idb (delete_calculation_result H R db' written) asked ≡ (
            if runs_at idb asked
            then answer idb db asked
            else if written == asked
            then record {
              status = invalid_bh;
              block_height = asked;
              i_score = pos 0;
              state_hash = none;
            }
            else answer idb db asked))
  unfolding do_query_calculate_result write_calculation_result delete_calculation_result new_result
      from_result
  answer-after_write idb db written stats state_hash asked =
      let result = new_result H (some stats) state_hash in
      elim (Bool-cases (runs_at idb asked)) [
        | inl runs ↦ rw runs (refl, refl)
        | inr idle ↦ elim (Bool-cases (written == asked)) [
          | inl own ↦
              let there : R.get (R.set db written result) asked ≡ some result =
                ground (arith, R.get-set db written result asked, own) in
              let gone : R.get (R.delete (R.set db written result) written) asked ≡ none =
                ground (arith, R.get-delete (R.set db written result) written asked, own) in
              (rw (idle, own, there) refl, rw (idle, own, gone) refl)
          | inr other ↦
              let same : R.get (R.set db written result) asked ≡ R.get db asked =
                ground (arith, R.get-set db written result asked, other) in
              let same' : R.get (R.delete (R.set db written result) written) asked
                  ≡ R.get db asked =
                ground (arith, R.get-delete (R.set db written result) written asked, same, other) in
              (rw (idle, other, same) refl, rw (idle, other, same') refl)
        ]
      ]
