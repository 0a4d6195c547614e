-- ===== src/Context/Tests.antt =====
-- The context at concrete values: a first and a second period.
use rewardcalculator.Base.{
  ℕ, nat_eq, ◌≤◌, ◌<◌, ◌≡◌, refl, arith, true, false, none, some, List, [], ◌∷◌, lookup,
}
use rewardcalculator.Db.Engine.{Engine}
use rewardcalculator.Db.MapDb.{empty, engine}
use rewardcalculator.Context.Info.{
  DbInfoData, IScoreDb, accept_calculate, is_calculating, toggle_account_db,
  rollback_account_db_block_info, check_rollback, check_account_db_rollback, need_iiss_data_reload,
}
use rewardcalculator.Context.Info.Heights.{
  IsOrdered, requested, toggled, finished, account_rolled_back, Reach, here, next,
  heights-IsOrdered, Accepted, accept_calculate_cases, rollback_ends_calculation,
}
use rewardcalculator.Context.Accounts.{Accounts, get_query_db_list, rollback_account_db}
use rewardcalculator.Context.Accounts.Undo.{calculate, rollback_undoes_calculation}
use rewardcalculator.Context.Governance.{
  IissGovernanceVariable, GovernanceVariable, new_gv_from_iiss, get_gv_by_block_height, GvStore,
  PRep, PRepStore, update_governance_variable, rollback_management_db, set_reward,
}
use rewardcalculator.Context.Governance.Lists.{
  IsSound, update_governance_variable-IsSound, rollback_management_db-IsSound,
}
use rewardcalculator.Context.Candidates.{
  PRepCandidate, prep_reg, prep_un_reg, IissTx, Candidates, update_prep_candidate,
}
use rewardcalculator.Context.Candidates.Life.{IsStored, life, update_prep_candidate_lem}

abbrev info : DbInfoData
info = record {
  db_count = 1;
  query_db_is_zero = true;
  current = record { block_height = 25; block_hash = 9 };
  calc_done = 20;
  prev_calc_done = 10;
  calculating = 20;
  toggle_bh = 21;
}

abbrev idb : IScoreDb
idb = record { info = info; stored = info }

idb-IsOrdered : IsOrdered idb
idb-IsOrdered = record { prev = omega arith; running = omega arith; saved = refl }

-- A calculation to height 30 that is done and rolled back.
a_period : (b : IScoreDb) × Reach idb b
unfolding accept_calculate is_calculating toggle_account_db
a_period = (
  _,
  next
      (next (next (next here (requested idb false (some 30))) (toggled _ 31))
        (finished _ 30 refl refl))
      (account_rolled_back _),
)

heights-IsOrdered_example : IsOrdered a_period.0
heights-IsOrdered_example = heights-IsOrdered idb-IsOrdered a_period.1

rollback_ends_calculation_example :
    (is_calculating (rollback_account_db_block_info idb) ≡ false)
    × (need_iiss_data_reload (rollback_account_db_block_info idb) ≡ false)
    × ((rollback_account_db_block_info idb).info.calc_done < 15)
    × (15 ≤ idb.info.calc_done)
unfolding check_rollback check_account_db_rollback
rollback_ends_calculation_example = rollback_ends_calculation idb 15 refl refl

accept_calculate_cases_example :
    let (idb', status) = accept_calculate idb false (some 30) in
    Accepted idb false (some 30) idb' status
accept_calculate_cases_example = accept_calculate_cases idb false (some 30)

-- One store each, written here as numbers.
abbrev accounts : Accounts ℕ
accounts = record { idb = idb; account0 = 100 ∷ []; account1 = 200 ∷ []; backups = [] }

abbrev calculated : Accounts ℕ
calculated = calculate 0 accounts 30 (300 ∷ [])

rollback_undoes_calculation_example :
    (get_query_db_list (rollback_account_db calculated 25) ≡ get_query_db_list accounts)
    × ((rollback_account_db calculated 25).backups ≡ [])
    × ((rollback_account_db calculated 25).idb.info.calc_done ≡ accounts.idb.info.calc_done)
unfolding get_query_db_list
rollback_undoes_calculation_example =
    rollback_undoes_calculation 0 accounts 30 25 (300 ∷ []) tt (omega arith) (omega arith) refl

abbrev gvs : Engine ℕ GovernanceVariable
gvs = engine ℕ GovernanceVariable

abbrev preps : Engine ℕ PRep
preps = engine ℕ PRep

abbrev iiss_at : ℕ → IissGovernanceVariable
iiss_at h = record {
  block_height = h;
  incentive_rep = 3;
  reward_rep = 1200;
  main_prep_count = 22;
  sub_prep_count = 78;
}

abbrev gv_at : ℕ → GovernanceVariable
unfolding new_gv_from_iiss
gv_at h = new_gv_from_iiss (iiss_at h)

abbrev one_gv : GvStore gvs
one_gv = (gv_at 10 ∷ [], gvs.set (empty ℕ GovernanceVariable) 10 (gv_at 10))

one_gv-IsSound : IsSound gvs one_gv
unfolding IsSound gv_at new_gv_from_iiss set_reward
one_gv-IsSound = ((tt, tt), λ k. refl)

update_governance_variable-IsSound_example :
    IsSound gvs (update_governance_variable gvs 10 (iiss_at 15 ∷ iiss_at 12 ∷ []) one_gv)
update_governance_variable-IsSound_example =
    update_governance_variable-IsSound gvs 10 (iiss_at 15 ∷ iiss_at 12 ∷ []) one_gv one_gv-IsSound

abbrev no_preps : PRepStore preps
no_preps = ([], empty ℕ PRep)

abbrev rolled_back : GvStore gvs
rolled_back = (rollback_management_db gvs preps 5 (one_gv, no_preps)).0

rollback_management_db-IsSound_example :
    IsSound gvs rolled_back
    × (gvs.get rolled_back.1 10 ≡ none)
    × (get_gv_by_block_height 6 rolled_back.0 ≡ get_gv_by_block_height 6 one_gv.0)
rollback_management_db-IsSound_example =
    rollback_management_db-IsSound gvs preps 5 one_gv no_preps one_gv-IsSound 10 6 (omega arith)
      (omega arith)

abbrev candidates : Engine ℕ PRepCandidate
candidates = engine ℕ PRepCandidate

abbrev no_candidates : Candidates candidates
no_candidates = record { memory = []; db = empty ℕ PRepCandidate }

abbrev txs : List IissTx
txs =
    record { address = 7; block_height = 12; data_type = prep_reg }
    ∷ record { address = 7; block_height = 14; data_type = prep_un_reg }
    ∷ record { address = 7; block_height = 16; data_type = prep_reg }
    ∷ []

update_prep_candidate_lem_example :
    lookup 7 (update_prep_candidate candidates txs no_candidates).memory ≡ life 7 none txs
update_prep_candidate_lem_example = update_prep_candidate_lem candidates 7 txs no_candidates

no_candidates-IsStored : IsStored candidates no_candidates
unfolding IsStored
no_candidates-IsStored a = refl
