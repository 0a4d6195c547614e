-- ===== src/Debug/Recorded.antt =====
-- Over any records that are written into the debug output of a calculation, each result stays the
-- I-Score of its address in the query DB with its betas.
use rewardcalculator.Base.{
  ℕ, nat_eq, ◌/◌, ◌≡◌, refl, false, Option, none, some, List, ◌==◌, All, length, Bool-cases, inl,
  inr,
}
use rewardcalculator.Base.Int.{ℤ, pos, ◌+ℤ◌, to_uint64}
use rewardcalculator.Account.Types.{DelegateData, IScoreData}
use rewardcalculator.Context.Governance.{GovernanceVariable, PRepDelegationInfo, PRep}
use rewardcalculator.Calculate.Produce.{IissBlockProduceInfo}
use rewardcalculator.Debug.Types.{Reward, CalcDebugResult, CalcDebug}
use rewardcalculator.Debug.Change.{change_result, with_generated, with_validated}
use rewardcalculator.Debug.{
  write_to, contains, write_beta1_info_of, write_beta2_info_of, write_beta3_info_of,
}
use rewardcalculator.Debug.Balance.{
  Adds, generated-Adds, validated-Adds, delegated-Adds, delegation-Adds,
}
use rewardcalculator.Debug.Results.{
  IsBalanced, Above, total_for, change_result-One, change_calc_result-Some,
}

module _ (gvs : List GovernanceVariable) (query : ℕ → Option IScoreData) where
  -- There is a result for the calculation, and all in it are balanced.
  pub record IsRecorded (d : CalcDebug) : Type 0 where
    pub result : CalcDebugResult
    pub is : d.result ≡ some result
    pub balanced : All (IsBalanced gvs query) result.results

  pub record Recorded (o : Option CalcDebug) : Type 0 where
    pub debug : CalcDebug
    pub written : o ≡ some debug
    pub recorded : IsRecorded debug

  unfoldable pub total_in : ℕ → CalcDebug → ℤ
  unfolding total_for
  total_in a d = elim d.result [ none ↦ pos 0 | some result ↦ total_for gvs query a result.results ]

  -- After a write of an I-Score for an address.
  pub record Written (a x : ℕ) (d : CalcDebug) (o : Option CalcDebug) : Type 0 where
    pub debug : CalcDebug
    pub written : o ≡ some debug
    pub recorded : IsRecorded debug
    pub same_flag : debug.flag ≡ d.flag
    pub same_addresses : debug.addresses ≡ d.addresses
    pub moves : total_in a debug ≡ total_in a d +ℤ pos x

  pub write_to-Written :
      (a h : ℕ) (change : Reward → Reward) (x : ℕ) (d : CalcDebug)
      → Adds change x
      → Above gvs query h
      → IsRecorded d
      → Written a x d (write_to gvs query a h change x d)
  unfolding write_to total_in
  write_to-Written a h change x d adds above rec =
      let some_results =
        change_calc_result-Some gvs query a x (change_result h change x) rec.result.results
          (λ r b. change_result-One gvs query h change x r adds above b) rec.balanced in
      rw (rec.is, some_results.is)
        (record {
          debug = record d { result = some (record rec.result { results = some_results.results }) };
          written = refl;
          recorded = record {
            result = record rec.result { results = some_results.results };
            is = refl;
            balanced = some_results.balanced;
          };
          same_flag = refl;
          same_addresses = refl;
          moves = some_results.moves;
        })

  write_to-Recorded :
      (a h : ℕ) (change : Reward → Reward) (x : ℕ) (d : CalcDebug)
      → Adds change x
      → Above gvs query h
      → IsRecorded d
      → Recorded (write_to gvs query a h change x d)
  write_to-Recorded a h change x d adds above rec =
      let w = write_to-Written a h change x d adds above rec in
      record { debug = w.debug; written = w.written; recorded = w.recorded }

  pub unchanged : (d : CalcDebug) → IsRecorded d → Recorded (some d)
  unchanged d rec = record { debug = d; written = refl; recorded = rec }

  pub beta1-Recorded :
      (reward : ℕ) (bp : IissBlockProduceInfo) (a : ℕ) (d : CalcDebug)
      → Above gvs query bp.block_height
      → IsRecorded d
      → Recorded (write_beta1_info_of gvs query reward bp a d)
  unfolding write_beta1_info_of
  beta1-Recorded reward bp a d above rec = elim (Bool-cases (bp.generator == a)) [
    | inl own ↦ rw own (
        write_to-Recorded a bp.block_height (with_generated reward) reward d (generated-Adds reward)
          above rec)
    | inr other ↦ elim (Bool-cases (contains a bp.validator)) [
      | inl validator ↦
          let share = reward / length bp.validator in
          rw (other, validator)
            (write_to-Recorded a bp.block_height (with_validated (length bp.validator) share) share
              d (validated-Adds (length bp.validator) share) above rec)
      | inr none_of_them ↦ rw (other, none_of_them) (unchanged d rec)
    ]
  ]

  pub beta2-Recorded :
      (info : PRepDelegationInfo) (prep : PRep) (s e reward a : ℕ) (d : CalcDebug)
      → Above gvs query e
      → (to_uint64 prep.total_delegation == 0) ≡ false
      → IsRecorded d
      → Recorded (write_beta2_info_of gvs query info prep s e reward a d)
  unfolding write_beta2_info_of
  beta2-Recorded info prep s e reward a d above some_total rec =
      elim (Bool-cases (info.address == a)) [
        | inl own ↦ rw (own, some_total) (write_to-Recorded a e _ _ d (delegated-Adds _) above rec)
        | inr other ↦ rw other (unchanged d rec)
      ]

  pub beta3-Recorded :
      (to reward_rep : ℕ) (dg : DelegateData) (period e a : ℕ) (d : CalcDebug)
      → Above gvs query e
      → IsRecorded d
      → Recorded (write_beta3_info_of gvs query to reward_rep dg period e a d)
  unfolding write_beta3_info_of
  beta3-Recorded to reward_rep dg period e a d above rec = elim (Bool-cases (to == a)) [
    | inl own ↦ rw own (write_to-Recorded a e _ _ d (delegation-Adds _) above rec)
    | inr other ↦ rw other (unchanged d rec)
  ]
