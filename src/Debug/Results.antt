-- ===== src/Debug/Results.antt =====
-- The results of a calculation in core/calculation_debug.go, one write: each stays the I-Score of its
-- address in the query DB with its betas.
use rewardcalculator.Base.{
  ℕ, nat_eq, ◌≡◌, refl, ap, ◌∙◌, arith, true, Option, some, List, [], ◌∷◌, map, ◌==◌, if◌then◌else◌,
  All, Bool-cases, inl, inr,
}
use rewardcalculator.Base.Int.{ℤ, pos, ◌+ℤ◌, int_laws}
use rewardcalculator.Account.Types.{IScoreData}
use rewardcalculator.Context.Governance.{GovernanceVariable, gv_height}
use rewardcalculator.Debug.Types.{Reward, CalcResult, new_reward}
use rewardcalculator.Debug.Change.{change_result}
use rewardcalculator.Debug.{i_score_in, init_calc_result, change_calc_result}
use rewardcalculator.Debug.Balance.{
  total_betas, reward_height, is_above_some, Adds, change_reward-Changed,
}

module _ (gvs : List GovernanceVariable) (query : ℕ → Option IScoreData) where
  pub record IsBalanced (r : CalcResult) : Type 0 where
    pub total : r.total_i_score ≡ i_score_in (query r.address) +ℤ total_betas r.rewards
    pub heights : map reward_height r.rewards ≡ map gv_height gvs

  abbrev pub Above : ℕ → Type 0
  Above h = is_above_some h (map gv_height gvs) ≡ true

  -- What a result makes of a change that adds an I-Score.
  pub record One (r : CalcResult) (x : ℕ) (o : Option CalcResult) : Type 0 where
    pub changed : CalcResult
    pub is : o ≡ some changed
    pub balanced : IsBalanced changed
    pub same_address : changed.address ≡ r.address
    pub moves : changed.total_i_score ≡ r.total_i_score +ℤ pos x

  pub change_result-One :
      (h : ℕ) (change : Reward → Reward) (x : ℕ) (r : CalcResult)
      → Adds change x
      → Above h
      → IsBalanced r
      → One r x (change_result h change x r)
  unfolding change_result
  change_result-One h change x r adds above b =
      let l =
        change_reward-Changed h change x r.rewards adds (ap (is_above_some h) b.heights ∙ above) in
      rw l.is (record {
        changed = record r { rewards = l.rewards; total_i_score = r.total_i_score +ℤ pos x };
        is = refl;
        balanced = record {
          total = grind (int_laws, b.total, l.total);
          heights = l.heights ∙ b.heights;
        };
        same_address = refl;
        moves = refl;
      })

  no_betas : (l : List GovernanceVariable) → total_betas (map new_reward l) ≡ pos 0
  unfolding total_betas
  no_betas [] = refl
  no_betas (gv ∷ l) = grind (int_laws, no_betas l)

  same_heights :
      (l : List GovernanceVariable) → map reward_height (map new_reward l) ≡ map gv_height l
  same_heights [] = refl
  same_heights (gv ∷ l) = ap (λ y. gv.block_height ∷ y) (same_heights l)

  pub init_calc_result-IsBalanced : (a : ℕ) → IsBalanced (init_calc_result gvs query a)
  unfolding init_calc_result
  init_calc_result-IsBalanced a = record {
    total = grind (int_laws, no_betas gvs);
    heights = same_heights gvs;
  }

  -- The total of an address, that of the query DB before it has a result.
  unfoldable pub total_for : ℕ → List CalcResult → ℤ
  total_for a [] = i_score_in (query a)
  total_for a (r ∷ l) = let rest = total_for a l in if r.address == a then r.total_i_score else rest

  pub record Some (a : ℕ) (l : List CalcResult) (x : ℕ) (o : Option (List CalcResult))
      : Type 0 where
    pub results : List CalcResult
    pub is : o ≡ some results
    pub balanced : All IsBalanced results
    pub moves : total_for a results ≡ total_for a l +ℤ pos x

  pub change_calc_result-Some :
      (a x : ℕ) (change : CalcResult → Option CalcResult) (l : List CalcResult)
      → ((r : CalcResult) → IsBalanced r → One r x (change r))
      → All IsBalanced l
      → Some a l x (change_calc_result gvs query a change l)
  unfolding change_calc_result total_for init_calc_result
  change_calc_result-Some a x change [] step b =
      let one = step (init_calc_result gvs query a) (init_calc_result-IsBalanced a) in
      let own : (one.changed.address == a) ≡ true = ground (arith, one.same_address) in
      rw one.is (record {
        results = one.changed ∷ [];
        is = refl;
        balanced = (one.balanced, tt);
        moves = rw own one.moves;
      })
  change_calc_result-Some a x change (r ∷ l) step b = elim (Bool-cases (r.address == a)) [
    | inl own ↦
        let one = step r b.0 in
        let still : (one.changed.address == a) ≡ true = ap (λ y. y == a) one.same_address ∙ own in
        rw (own, one.is)
          (record {
            results = one.changed ∷ l;
            is = refl;
            balanced = (one.balanced, b.1);
            moves = rw (own, still) one.moves;
          })
    | inr other ↦
        let later = change_calc_result-Some a x change l step b.1 in
        rw (other, later.is)
          (record {
            results = r ∷ later.results;
            is = refl;
            balanced = (b.0, later.balanced);
            moves = rw other later.moves;
          })
  ]
