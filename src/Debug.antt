-- ===== src/Debug.antt =====
-- core/calculation_debug.go: the record of how the I-Scores of some addresses come about, which
-- calculateIISSBlockProduce, setPRepReward and calculateDelegationReward of core/msg_calculate.go
-- write into, and the requests of core/msg_debug.go that change it. The texts of the formulas, the
-- config file and the DB of the records are not modelled, nor is the InitialIScore of a result.
-- `none` is a panic.
pub mod Types
pub mod Change
pub mod Balance
pub mod Results
pub mod Recorded
pub mod Runs
pub mod Beta3
pub mod Delegations
mod Tests
use rewardcalculator.Base.{
  ℕ, nat_eq, ◌/◌, Bool, true, false, Option, none, some, List, [], ◌∷◌, ◌++◌, map, ◌==◌, ◌&&◌, not,
  if◌then◌else◌, length,
}
use rewardcalculator.Base.Int.{ℤ, pos, to_uint64}
use rewardcalculator.Base.Words.{sub64}
use rewardcalculator.Account.Types.{DelegateData, IScoreData}
use rewardcalculator.Context.Governance.{GovernanceVariable, PRepDelegationInfo, PRep}
use rewardcalculator.Context.Candidates.{PRepCandidate}
use rewardcalculator.Calculate.Produce.{IissBlockProduceInfo}
use rewardcalculator.Debug.Types.{Reward, CalcResult, CalcDebugResult, CalcDebug, new_reward}
use rewardcalculator.Debug.Change.{
  change_result, with_generated, with_validated, with_delegated, with_delegation, beta2_of,
  beta3_of,
}

abbrev pub is_empty : List ℕ → Bool
is_empty [] = true
is_empty (a ∷ l) = false

unfoldable pub need_to_update : CalcDebug → Bool
need_to_update d = d.flag && not (is_empty d.addresses)

abbrev pub contains : ℕ → List ℕ → Bool
contains a [] = false
contains a (x ∷ l) = let rest = contains a l in if x == a then true else rest

abbrev pub and_rest : Option CalcResult → List CalcResult → Option (List CalcResult)
and_rest none l = none
and_rest (some r) l = some (r ∷ l)

abbrev pub and_results : CalcResult → Option (List CalcResult) → Option (List CalcResult)
and_results r none = none
and_results r (some l) = some (r ∷ l)

abbrev pub i_score_in : Option IScoreData → ℤ
i_score_in none = pos 0
i_score_in (some ia) = ia.i_score

abbrev pub with_results : CalcDebug → CalcDebugResult → Option (List CalcResult) → Option CalcDebug
with_results d result none = none
with_results d result (some results) =
    some (record d { result = some (record result { results = results }) })

-- The loops over the addresses.
unfoldable pub for_each : List ℕ → (ℕ → CalcDebug → Option CalcDebug) → CalcDebug → Option CalcDebug
for_each [] write d = some d
for_each (a ∷ l) write d = elim (write a d) [ none ↦ none | some d' ↦ for_each l write d' ]

unfoldable pub for_addresses : (ℕ → CalcDebug → Option CalcDebug) → CalcDebug → Option CalcDebug
unfolding need_to_update for_each
for_addresses write d = if need_to_update d then for_each d.addresses write d else some d

-- The governance variables and the query DBs of the context.
module _ (gvs : List GovernanceVariable) (query : ℕ → Option IScoreData) where
  -- InitCalcResult
  unfoldable pub init_calc_result : ℕ → CalcResult
  init_calc_result address = record {
    address = address;
    total_i_score = i_score_in (query address);
    rewards = map new_reward gvs;
  }

  -- GetCalcResult, and a change of the result that it points to: the first of the address, or a new
  -- one behind all others.
  unfoldable pub change_calc_result :
      ℕ → (CalcResult → Option CalcResult) → List CalcResult → Option (List CalcResult)
  unfolding init_calc_result
  change_calc_result address change [] = and_rest (change (init_calc_result address)) []
  change_calc_result address change (r ∷ rest) =
      let later = change_calc_result address change rest in
      if r.address == address then and_rest (change r) rest else and_results r later

  -- Without a result there is none to change.
  unfoldable pub write_to : ℕ → ℕ → (Reward → Reward) → ℕ → CalcDebug → Option CalcDebug
  unfolding change_calc_result change_result
  write_to address block_height change i_score d = elim d.result [
    | none ↦ none
    | some result ↦
        with_results d result
          (change_calc_result address (change_result block_height change i_score) result.results)
  ]

  unfoldable pub write_beta1_info_of : ℕ → IissBlockProduceInfo → ℕ → CalcDebug → Option CalcDebug
  unfolding write_to with_validated
  write_beta1_info_of produce_reward bp address d =
      let share = produce_reward / length bp.validator in
      if bp.generator == address
      then write_to address bp.block_height (with_generated produce_reward) produce_reward d
      else if contains address bp.validator
      then write_to address bp.block_height (with_validated (length bp.validator) share) share d
      else some d

  -- A division by zero panics.
  unfoldable pub write_beta2_info_of :
      PRepDelegationInfo → PRep → ℕ → ℕ → ℕ → ℕ → CalcDebug → Option CalcDebug
  unfolding write_to beta2_of
  write_beta2_info_of delegation_info prep start_block end_block prep_reward address d =
      let i_score =
        beta2_of prep_reward delegation_info.delegated_amount (sub64 end_block start_block)
          prep.total_delegation in
      if delegation_info.address == address
      then (if to_uint64 prep.total_delegation == 0
          then none
          else write_to address end_block
              (with_delegated (record {
                block_height = end_block;
                delegated = to_uint64 delegation_info.delegated_amount;
                total_delegated = to_uint64 prep.total_delegation;
                i_score = i_score;
              }))
              i_score d)
      else some d

  unfoldable pub write_beta3_info_of :
      ℕ → ℕ → DelegateData → ℕ → ℕ → ℕ → CalcDebug → Option CalcDebug
  unfolding write_to beta3_of
  write_beta3_info_of reward_address reward_rep delegation_info period end_block debug_address d =
      let i_score = beta3_of reward_rep period delegation_info.delegate in
      if reward_address == debug_address
      then write_to debug_address end_block
          (with_delegation (record {
            block_height = end_block;
            address = delegation_info.address;
            amount = to_uint64 delegation_info.delegate;
            i_score = i_score;
          }))
          i_score d
      else some d

  unfoldable pub write_beta1_info : ℕ → IissBlockProduceInfo → CalcDebug → Option CalcDebug
  unfolding for_addresses write_beta1_info_of
  write_beta1_info produce_reward bp = for_addresses (write_beta1_info_of produce_reward bp)

  unfoldable pub write_beta2_info :
      PRepDelegationInfo → PRep → ℕ → ℕ → ℕ → CalcDebug → Option CalcDebug
  unfolding for_addresses write_beta2_info_of
  write_beta2_info delegation_info prep start_block end_block prep_reward =
      for_addresses (write_beta2_info_of delegation_info prep start_block end_block prep_reward)

  unfoldable pub write_beta3_info : ℕ → ℕ → DelegateData → ℕ → ℕ → CalcDebug → Option CalcDebug
  unfolding for_addresses write_beta3_info_of
  write_beta3_info reward_address reward_rep delegation_info period end_block =
      for_addresses (write_beta3_info_of reward_address reward_rep delegation_info period end_block)

  -- InitCalcDebugResult; the order of the candidates is that of a Go map.
  unfoldable pub init_calc_debug_result : List PRepCandidate → ℕ → ℕ → CalcDebug → CalcDebug
  unfolding need_to_update init_calc_result
  init_calc_debug_result candidates block_height block_hash d =
      if need_to_update d
      then record d {
        result = some (record {
          block_height = block_height;
          block_hash = block_hash;
          preps = candidates;
          gv = gvs;
          results = map init_calc_result d.addresses;
        });
      }
      else d

-- AddDebuggingAddress
unfoldable pub add_debugging_address : ℕ → CalcDebug → CalcDebug
add_debugging_address address d =
    if contains address d.addresses then d else record d { addresses = d.addresses ++ address ∷ [] }

-- ResetCalcDebugResults
unfoldable pub reset_calc_debug_results : CalcDebug → Option CalcDebug
reset_calc_debug_results d = elim d.result [
  | none ↦ none
  | some result ↦ some (record d { result = some (record result { results = [] }) })
]

-- handleCalcDebugFlagOn and handleCalcDebugFlagOff: the answer says whether a calculation runs, but
-- the flag is set in any case.
unfoldable pub handle_calc_debug_flag : Bool → Bool → CalcDebug → CalcDebug × Bool
handle_calc_debug_flag on is_calculating d = (record d { flag = on }, not is_calculating)

-- handleCalcDebugAddAddress, likewise.
unfoldable pub handle_calc_debug_add_address : ℕ → Bool → CalcDebug → CalcDebug × Bool
unfolding add_debugging_address
handle_calc_debug_add_address address is_calculating d =
    (add_debugging_address address d, not is_calculating)
