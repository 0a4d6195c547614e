-- ===== src/Debug/Tests.antt =====
-- The debug output of a calculation at concrete values.
use rewardcalculator.Base.{ℕ, ◌≡◌, refl, arith, true, false, Option, none, some, List, [], ◌∷◌}
use rewardcalculator.Base.Int.{pos}
use rewardcalculator.Account.Types.{DelegateData, IScoreData}
use rewardcalculator.Context.Governance.{GovernanceVariable, PRep, PRepDelegationInfo}
use rewardcalculator.Context.Candidates.{PRepCandidate}
use rewardcalculator.Calculate.Delegation.{calculate_delegation_reward}
use rewardcalculator.Calculate.Produce.{IissBlockProduceInfo}
use rewardcalculator.Debug.Types.{CalcDebug, new_reward}
use rewardcalculator.Debug.Change.{change_reward, with_generated}
use rewardcalculator.Debug.{
  init_calc_debug_result, init_calc_result, need_to_update, write_beta1_info,
  handle_calc_debug_flag,
}
use rewardcalculator.Debug.Results.{init_calc_result-IsBalanced}
use rewardcalculator.Debug.Recorded.{IsRecorded, Recorded}
use rewardcalculator.Debug.Runs.{
  Write, beta1, beta2, beta3, apply_all, apply_all-init_calc_debug_result,
}
use rewardcalculator.Debug.Delegations.{
  Paid, delegation_reward_written, delegation_reward_written-Paid,
}

abbrev gv_at : ℕ → GovernanceVariable
gv_at block_height = record {
  block_height = block_height;
  calculated_incentive_rep = 1;
  reward_rep = 4000;
  main_prep_count = 22;
  sub_prep_count = 78;
  block_produce_reward = 11000;
  prep_reward = 100000;
}

abbrev gvs : List GovernanceVariable
gvs = gv_at 10 ∷ gv_at 20 ∷ []

abbrev query : ℕ → Option IScoreData
query a = some (record { i_score = pos 500; block_height = 10; delegations = [] })

abbrev debug : CalcDebug
debug = record { flag = true; addresses = 7 ∷ 8 ∷ []; result = none }

abbrev block : IissBlockProduceInfo
block = record { block_height = 25; generator = 7; validator = 8 ∷ 9 ∷ [] }

abbrev info : PRepDelegationInfo
info = record { address = 8; delegated_amount = pos 40 }

abbrev prep : PRep
prep = record { block_height = 10; total_delegation = pos 100; delegations = info ∷ [] }

abbrev delegation : DelegateData
delegation = record { address = 8; delegate = pos 777600 }

abbrev writes : List Write
writes = beta1 11000 block ∷ beta2 info prep 10 20 100000 ∷ beta3 7 4000 delegation 10 20 ∷ []

is_on : need_to_update debug ≡ true
unfolding need_to_update
is_on = refl

apply_all-init_calc_debug_result_example :
    Recorded gvs query (apply_all gvs query writes (init_calc_debug_result gvs query [] 30 1 debug))
apply_all-init_calc_debug_result_example =
    apply_all-init_calc_debug_result gvs query [] 30 1 debug writes is_on
      (refl, ((refl, refl), (refl, tt)))

abbrev begun : CalcDebug
begun = record debug {
  result = some (record {
    block_height = 30;
    block_hash = 1;
    preps = [];
    gv = gvs;
    results = init_calc_result gvs query 7 ∷ init_calc_result gvs query 8 ∷ [];
  });
}

begun-IsRecorded : IsRecorded gvs query begun
begun-IsRecorded = record {
  result = _;
  is = refl;
  balanced =
      (init_calc_result-IsBalanced gvs query 7, (init_calc_result-IsBalanced gvs query 8, tt));
}

abbrev candidate : PRepCandidate
candidate = record { start = 5; end = 0 }

begun_is_on : need_to_update begun ≡ true
unfolding need_to_update
begun_is_on = refl

delegation_reward_written-Paid_example :
    Paid gvs query 7 begun
      (pos 0)
      (calculate_delegation_reward gvs (pos 777600) 12 30 candidate)
      (delegation_reward_written gvs query 7 delegation 12 30 candidate begun)
delegation_reward_written-Paid_example =
    delegation_reward_written-Paid gvs query 7 8 777600 12 30 candidate begun begun_is_on refl
      begun-IsRecorded (omega arith)
      ((omega arith, omega arith, omega arith), ((omega arith, omega arith, omega arith), tt))

-- getReward finds the first reward for any height: this one belongs to the second.
first_of_two :
    change_reward 25 (with_generated 6) (new_reward (gv_at 10) ∷ new_reward (gv_at 20) ∷ [])
    ≡ some (with_generated 6 (new_reward (gv_at 10)) ∷ new_reward (gv_at 20) ∷ [])
unfolding change_reward
first_of_two = refl

-- The flag is set while a calculation runs, although the answer is that it is not; the calculation
-- has no result, and its next record of a debugged address panics.
flag_set : (handle_calc_debug_flag true true (record debug { flag = false })).0 ≡ debug
unfolding handle_calc_debug_flag
flag_set = refl

no_result : write_beta1_info gvs query 11000 block debug ≡ none
unfolding write_beta1_info
no_result = refl
