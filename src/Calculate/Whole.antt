-- ===== src/Calculate/Whole.antt =====
-- DoCalculate of core/msg_calculate.go: the acceptance of the request, the change of the account
-- DBs, the update of the management data, the calculation, and the end of it.
pub mod Outcome
pub mod Conserved
mod Tests
use rewardcalculator.Base.{ℕ, nat_eq, ◌+◌, ◌≡◌, Bool, true, false, Option, none, some, List}
use rewardcalculator.Base.Words.{wrap64}
use rewardcalculator.Account.Types.{IScoreData}
use rewardcalculator.Db.Engine.{Engine}
use rewardcalculator.Db.Batch.{Batches}
use rewardcalculator.Db.Sharded.{engine}
use rewardcalculator.Context.Info.{IScoreDb, CalcStatus, ok, accept_calculate, set_calc_done_bh}
use rewardcalculator.Context.Accounts.{
  Accounts, get_account_db_index, toggle, reset_account_db, get_query_db_list, get_calc_db_list,
  set_calc_db_list,
}
use rewardcalculator.Context.Governance.{
  GovernanceVariable, IissGovernanceVariable, PRep, GvStore, PRepStore, update_governance_variable,
  update_prep,
}
use rewardcalculator.Context.Candidates.{PRepCandidate, IissTx, Candidates, update_prep_candidate}
use rewardcalculator.Calculate.Produce.{IissBlockProduceInfo}
use rewardcalculator.Calculate.Calculation.{Input, Output, calculate_all}
use rewardcalculator.Statistics.{Statistics}
use rewardcalculator.Query.Results.{CrData, write_calculation_result}

-- What is read from the IISS DB. `header` is the block height of the header, `none` where it does
-- not load; the revision is that of the header.
pub record IissData : Type 0 where
  pub header : Option ℕ
  pub revision : ℕ
  pub gv_list : List IissGovernanceVariable
  pub prep_list : List PRep
  pub txs : List IissTx
  pub blocks : List IissBlockProduceInfo

abbrev pub cancel_none : ℕ
cancel_none = 0

-- `S` is a sub-DB of accounts, with its batches over all of them in `T`.
module _ {H : Type 0} (new_hash zero_hash : H) (absorb : H → ℕ → IScoreData → H)
    (absorb_hash : H → H → H) (produce_hash : List (ℕ × IScoreData) → H) (db_count : ℕ)
    (S : Engine ℕ IScoreData) (empty : S.Table) (empty_get : (j : ℕ) → S.get empty j ≡ none)
    (T : Batches (engine S empty empty_get (get_account_db_index db_count)))
    (V : Engine ℕ GovernanceVariable) (R : Engine ℕ PRep) (C : Engine ℕ PRepCandidate)
    (D : Engine ℕ (CrData H)) where
  abbrev pub Shards : Engine ℕ IScoreData
  Shards = engine S empty empty_get (get_account_db_index db_count)

  pub record Context : Type 0 where
    pub accounts : Accounts S.Table
    pub gvs : GvStore V
    pub preps : PRepStore R
    pub candidates : Candidates C
    pub revision : ℕ
    pub results : D.Table
    pub cancel_code : ℕ

  pub data CalcOutcome : Type 0 where
    refused : CalcStatus → CalcOutcome
    cancelled_by : ℕ → CalcOutcome
    finished : Statistics → H → CalcOutcome

  -- Up to `ctx.UpdatePRepCandidate`. The block height is the one that was just set as running.
  unfoldable pub prepare : IissData → ℕ → Context → Context
  unfolding toggle reset_account_db update_governance_variable update_prep update_prep_candidate
  prepare iiss block_height ctx =
      let toggled = toggle ctx.accounts (wrap64 (block_height + 1)) in
      let prev_calc_done = ctx.accounts.idb.info.prev_calc_done in
      record ctx {
        accounts = reset_account_db empty toggled block_height toggled.idb.info.calc_done;
        revision = iiss.revision;
        gvs = update_governance_variable V prev_calc_done iiss.gv_list ctx.gvs;
        preps = update_prep R prev_calc_done iiss.prep_list ctx.preps;
        candidates = update_prep_candidate C iiss.txs ctx.candidates;
      }

  abbrev pub input_of : IissData → ℕ → Context → Input
  input_of iiss block_height ctx = record {
    block_height = block_height;
    calc_done = ctx.accounts.idb.info.calc_done;
    revision = ctx.revision;
    gvs = ctx.gvs.0;
    preps = ctx.preps.0;
    candidates = ctx.candidates.memory;
    txs = iiss.txs;
    blocks = iiss.blocks;
  }

  abbrev pub Calculation : Type 0
  Calculation =
      List S.Table
      × Option (
          Output new_hash zero_hash absorb absorb_hash produce_hash (get_account_db_index db_count)
            Shards T)

  -- From the check of the channel on.
  unfoldable pub conclude : ℕ → Context → Calculation → Context × CalcOutcome
  unfolding set_calc_db_list set_calc_done_bh write_calculation_result
  conclude block_height ctx (calc, none) = (
    record ctx { accounts = set_calc_db_list ctx.accounts calc; cancel_code = cancel_none },
    cancelled_by ctx.cancel_code,
  )
  conclude block_height ctx (calc, some output) =
      let accounts = set_calc_db_list ctx.accounts output.table in
      (
        record ctx {
          accounts = record accounts { idb = set_calc_done_bh accounts.idb block_height };
          results =
              write_calculation_result H D ctx.results block_height (some output.stats)
                (some output.state_hash);
        },
        finished output.stats output.state_hash,
      )

  unfoldable pub calculate_accepted :
      (ℕ → ℕ → Bool) → Bool → ℕ → IissData → ℕ → Context → Context × CalcOutcome
  unfolding prepare get_query_db_list get_calc_db_list calculate_all conclude
  calculate_accepted quit cancelled batch_count iiss block_height ctx =
      let ready = prepare iiss block_height ctx in
      conclude block_height ready (
        calculate_all new_hash zero_hash absorb absorb_hash produce_hash
          (get_account_db_index db_count) Shards T quit cancelled batch_count db_count
          (input_of iiss block_height ready) (get_query_db_list ready.accounts)
          (get_calc_db_list ready.accounts))

  unfoldable pub after_acceptance :
      (ℕ → ℕ → Bool) → Bool → ℕ → IissData → Context → IScoreDb × CalcStatus → Context × CalcOutcome
  unfolding calculate_accepted
  after_acceptance quit cancelled batch_count iiss ctx (idb, ok) =
      calculate_accepted quit cancelled batch_count iiss idb.info.calculating
        (record ctx { accounts = record ctx.accounts { idb = idb } })
  after_acceptance quit cancelled batch_count iiss ctx (idb, status) =
      (record ctx { accounts = record ctx.accounts { idb = idb } }, refused status)

  unfoldable pub do_calculate :
      (ℕ → ℕ → Bool) → Bool → ℕ → Bool → IissData → Context → Context × CalcOutcome
  unfolding accept_calculate after_acceptance
  do_calculate quit cancelled batch_count reload iiss ctx =
      after_acceptance quit cancelled batch_count iiss ctx
        (accept_calculate ctx.accounts.idb reload iiss.header)
