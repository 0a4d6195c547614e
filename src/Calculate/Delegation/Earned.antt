-- ===== src/Calculate/Delegation/Earned.antt =====
-- calculateIScore of core/msg_calculate.go, told by what each delegation earns.
use rewardcalculator.Base.{
  ℕ, nat_eq, ◌≡◌, refl, ◌∙◌, arith, true, false, none, some, List, [], ◌∷◌, ltb, leb, if◌then◌else◌,
  lookup, Bool-cases, Option-cases, inl, inr,
}
use rewardcalculator.Base.Int.{ℤ, pos, negsuc, ◌+ℤ◌, int_laws, is_zero, to_uint64}
use rewardcalculator.Account.Types.{DelegateData, IScoreData}
use rewardcalculator.Context.Governance.{GovernanceVariable}
use rewardcalculator.Context.Candidates.{PRepCandidate}
use rewardcalculator.Calculate.Delegation.{
  min_delegation, calculate_delegation_reward, add_delegations, calculate_to,
}

module _ (candidates : List (ℕ × PRepCandidate)) (gvs : List GovernanceVariable) where
  -- What a delegation earns: nothing below the minimum, or without a P-Rep.
  abbrev pub earns : ℕ → ℕ → DelegateData → ℤ
  earns start end dg =
      if ltb (to_uint64 dg.delegate) min_delegation
      then pos 0
      else (elim (lookup dg.address candidates) as (λ _. ℤ) [
        | none ↦ pos 0
        | some p_rep ↦ calculate_delegation_reward gvs dg.delegate start end p_rep
      ])

  unfoldable pub earned : ℕ → ℕ → List DelegateData → ℤ
  earned start end [] = pos 0
  earned start end (dg ∷ rest) = earns start end dg +ℤ earned start end rest

  with_one : ℕ → ℕ → ℤ → DelegateData → ℤ
  with_one start end total dg =
      if ltb (to_uint64 dg.delegate) min_delegation
      then total
      else (elim (lookup dg.address candidates) as (λ _. ℤ) [
        | none ↦ total
        | some p_rep ↦ total +ℤ calculate_delegation_reward gvs dg.delegate start end p_rep
      ])

  with_one-earns :
      (start end : ℕ) (total : ℤ) (dg : DelegateData)
      → with_one start end total dg ≡ total +ℤ earns start end dg
  unfolding with_one
  with_one-earns start end total dg =
      elim (Bool-cases (ltb (to_uint64 dg.delegate) min_delegation)) [
        | inl small ↦ rw small (grind int_laws)
        | inr enough ↦ elim (Option-cases (lookup dg.address candidates)) [
          | inl nobody ↦ rw (enough, nobody) (grind int_laws)
          | inr (p_rep, known) ↦ rw (enough, known) refl
        ]
      ]

  regroup : (a t e r : ℤ) → a ≡ t +ℤ e → a +ℤ r ≡ t +ℤ (e +ℤ r)
  regroup a t e r h = grind (int_laws, h)

  add_delegations-earned :
      (start end : ℕ) (total : ℤ) (l : List DelegateData)
      → add_delegations candidates gvs start end total l ≡ total +ℤ earned start end l
  unfolding add_delegations earned with_one
  add_delegations-earned start end total [] = grind int_laws
  add_delegations-earned start end total (dg ∷ rest) =
      add_delegations-earned start end (with_one start end total dg) rest
      ∙ regroup (with_one start end total dg) total (earns start end dg) (earned start end rest)
          (with_one-earns start end total dg)

  -- The account at a later height, with what its delegations earn up to there.
  abbrev pub up_to : ℕ → IScoreData → IScoreData
  up_to to ia = record {
    i_score = ia.i_score +ℤ earned ia.block_height to ia.delegations;
    block_height = to;
    delegations = ia.delegations;
  }

  zero_total : (old total r : ℤ) → is_zero total ≡ true → total ≡ pos 0 +ℤ r → old ≡ old +ℤ r
  zero_total old (pos n) r h e = (let z : n ≡ 0 = ground (arith, h) in grind (int_laws, z, e))
  zero_total old (negsuc n) r h e = absurd (ground (arith, h))

  some_total : (old total r : ℤ) → total ≡ pos 0 +ℤ r → old +ℤ total ≡ old +ℤ r
  some_total old total r e = grind (int_laws, e)

  -- calculateIScore to a height above that of the account.
  pub calculate_to-up_to :
      (to : ℕ) (ia : IScoreData)
      → leb to ia.block_height ≡ false
      → (calculate_to candidates gvs to ia).account ≡ up_to to ia
  unfolding calculate_to
  calculate_to-up_to to ia above =
      let total = add_delegations candidates gvs ia.block_height to (pos 0) ia.delegations in
      let sum = add_delegations-earned ia.block_height to (pos 0) ia.delegations in
      let r = earned ia.block_height to ia.delegations in
      let score : (if is_zero total then ia.i_score else ia.i_score +ℤ total) ≡ ia.i_score +ℤ r =
        elim (Bool-cases (is_zero total)) [
          | inl no_change ↦ rw no_change (zero_total ia.i_score total r no_change sum)
          | inr change ↦ rw change (some_total ia.i_score total r sum)
        ] in
      rw above (λ i. record (up_to to ia) { i_score = score i })

  pub reward-above :
      (to : ℕ) (ia : IScoreData)
      → leb to ia.block_height ≡ false
      → (calculate_to candidates gvs to ia).reward
        ≡ some (add_delegations candidates gvs ia.block_height to (pos 0) ia.delegations)
  unfolding calculate_to
  reward-above to ia above = rw above refl

  pub reward-below :
      (to : ℕ) (ia : IScoreData)
      → leb to ia.block_height ≡ true
      → (calculate_to candidates gvs to ia).reward ≡ none
  unfolding calculate_to
  reward-below to ia below = rw below refl
