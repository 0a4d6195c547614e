-- ===== src/Debug/Runs.antt =====
-- A calculation as the debug output sees it: InitCalcDebugResult, and then calls of WriteBeta1Info,
-- WriteBeta2Info and WriteBeta3Info in any order.
use rewardcalculator.Base.{
  ℕ, ◌≡◌, refl, true, false, Option, none, some, List, [], ◌∷◌, map, ◌==◌, All, Bool-cases, inl,
  inr,
}
use rewardcalculator.Base.Int.{to_uint64}
use rewardcalculator.Account.Types.{DelegateData, IScoreData}
use rewardcalculator.Context.Governance.{GovernanceVariable, PRepDelegationInfo, PRep, gv_height}
use rewardcalculator.Context.Candidates.{PRepCandidate}
use rewardcalculator.Calculate.Produce.{IissBlockProduceInfo}
use rewardcalculator.Debug.Types.{CalcDebug}
use rewardcalculator.Debug.{
  for_each, for_addresses, need_to_update, write_beta1_info, write_beta2_info, write_beta3_info,
  init_calc_debug_result, init_calc_result,
}
use rewardcalculator.Debug.Balance.{is_above_some}
use rewardcalculator.Debug.Recorded.{
  IsRecorded, Recorded, beta1-Recorded, beta2-Recorded, beta3-Recorded, unchanged,
}
use rewardcalculator.Debug.Results.{IsBalanced, init_calc_result-IsBalanced}

pub data Write : Type 0 where
  beta1 : ℕ → IissBlockProduceInfo → Write
  beta2 : PRepDelegationInfo → PRep → ℕ → ℕ → ℕ → Write
  beta3 : ℕ → ℕ → DelegateData → ℕ → ℕ → Write

module _ (gvs : List GovernanceVariable) (query : ℕ → Option IScoreData) where
  unfoldable pub apply : Write → CalcDebug → Option CalcDebug
  unfolding write_beta1_info write_beta2_info write_beta3_info
  apply (beta1 reward bp) d = write_beta1_info gvs query reward bp d
  apply (beta2 info prep s e reward) d = write_beta2_info gvs query info prep s e reward d
  apply (beta3 to reward_rep dg period e) d = write_beta3_info gvs query to reward_rep dg period e d

  unfoldable pub apply_all : List Write → CalcDebug → Option CalcDebug
  unfolding apply
  apply_all [] d = some d
  apply_all (w ∷ ws) d = elim (apply w d) [ none ↦ none | some d' ↦ apply_all ws d' ]

  -- Heights above a governance variable, as those are that the calculation finds a variable for, and
  -- a total delegation that is not 0 in 64 bits.
  abbrev pub Fits : Write → Type 0
  Fits (beta1 reward bp) = is_above_some bp.block_height (map gv_height gvs) ≡ true
  Fits (beta2 info prep s e reward) =
      (is_above_some e (map gv_height gvs) ≡ true)
      × ((to_uint64 prep.total_delegation == 0) ≡ false)
  Fits (beta3 to reward_rep dg period e) = is_above_some e (map gv_height gvs) ≡ true

  for_each-Recorded :
      (l : List ℕ) (write : ℕ → CalcDebug → Option CalcDebug) (d : CalcDebug)
      → ((a : ℕ) (d : CalcDebug) → IsRecorded gvs query d → Recorded gvs query (write a d))
      → IsRecorded gvs query d
      → Recorded gvs query (for_each l write d)
  unfolding for_each
  for_each-Recorded [] write d step rec = unchanged gvs query d rec
  for_each-Recorded (a ∷ l) write d step rec =
      let first = step a d rec in
      rw (first.written, for_each) (for_each-Recorded l write first.debug step first.recorded)

  for_addresses-Recorded :
      (write : ℕ → CalcDebug → Option CalcDebug) (d : CalcDebug)
      → ((a : ℕ) (d : CalcDebug) → IsRecorded gvs query d → Recorded gvs query (write a d))
      → IsRecorded gvs query d
      → Recorded gvs query (for_addresses write d)
  unfolding for_addresses
  for_addresses-Recorded write d step rec = elim (Bool-cases (need_to_update d)) [
    | inl on ↦ rw on (for_each-Recorded d.addresses write d step rec)
    | inr off ↦ rw off (unchanged gvs query d rec)
  ]

  apply-Recorded :
      (w : Write) (d : CalcDebug) → Fits w → IsRecorded gvs query d → Recorded gvs query (apply w d)
  unfolding apply write_beta1_info write_beta2_info write_beta3_info
  apply-Recorded (beta1 reward bp) d fits =
      for_addresses-Recorded _ d (λ a d'. beta1-Recorded gvs query reward bp a d' fits)
  apply-Recorded (beta2 info prep s e reward) d fits =
      for_addresses-Recorded _ d
        (λ a d'. beta2-Recorded gvs query info prep s e reward a d' fits.0 fits.1)
  apply-Recorded (beta3 to reward_rep dg period e) d fits =
      for_addresses-Recorded _ d
        (λ a d'. beta3-Recorded gvs query to reward_rep dg period e a d' fits)

  apply_all-Recorded :
      (ws : List Write) (d : CalcDebug)
      → All Fits ws
      → IsRecorded gvs query d
      → Recorded gvs query (apply_all ws d)
  unfolding apply_all
  apply_all-Recorded [] d fits rec = unchanged gvs query d rec
  apply_all-Recorded (w ∷ ws) d fits rec =
      let first = apply-Recorded w d fits.0 rec in
      rw (first.written, apply_all) (apply_all-Recorded ws first.debug fits.1 first.recorded)

  init_calc_results-IsBalanced :
      (l : List ℕ) → All (IsBalanced gvs query) (map (init_calc_result gvs query) l)
  init_calc_results-IsBalanced [] = tt
  init_calc_results-IsBalanced (a ∷ l) =
      (init_calc_result-IsBalanced gvs query a, init_calc_results-IsBalanced l)

  -- Where the debug output is on for some address when a calculation begins, and every record is for
  -- a height above a governance variable, those of the P-Rep rewards with a total delegation that is
  -- not 0 in 64 bits: the records of the calculation, in any order, are written without a panic, and
  -- leave in each result the I-Score of its address in the query DB and the sum of its betas as the
  -- total, and one reward for every governance variable.
  pub apply_all-init_calc_debug_result :
      (candidates : List PRepCandidate) (block_height block_hash : ℕ) (d : CalcDebug)
      (ws : List Write)
      → need_to_update d ≡ true
      → All Fits ws
      → Recorded gvs query
          (apply_all ws (init_calc_debug_result gvs query candidates block_height block_hash d))
  unfolding init_calc_debug_result
  apply_all-init_calc_debug_result candidates block_height block_hash d ws on fits = rw on (
      apply_all-Recorded ws _ fits
        (record { result = _; is = refl; balanced = init_calc_results-IsBalanced d.addresses }))
