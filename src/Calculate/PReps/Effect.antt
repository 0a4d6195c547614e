-- ===== src/Calculate/PReps/Effect.antt =====
-- The rewards of P-Reps against the I-Scores that they are added to.
use rewardcalculator.Base.{
  ℕ, nat_eq, ◌≡◌, refl, true, Option, none, some, Option-cases, Bool-cases, inl, inr, List, [], ◌∷◌,
  map, All,
}
use rewardcalculator.Base.Int.{ℤ, pos, ◌+ℤ◌, int_laws, is_zero}
use rewardcalculator.Account.Types.{IScoreData}
use rewardcalculator.Db.Engine.{Engine}
use rewardcalculator.Context.Periods.{period_of}
use rewardcalculator.Context.Governance.{
  GovernanceVariable, PRepDelegationInfo, PRep, gv_height, prep_height,
}
use rewardcalculator.Calculate.Total.{score, member, Distinct, total, total-set, chain}
use rewardcalculator.Calculate.PReps.{
  Reward, no_reward, add_period, collect_rewards, Progress, rewarded, write_rewards,
  set_prep_reward, reward_period, reward_preps, calculate_prep_reward,
}

-- The P-Reps of the rewards are listed.
AreListed : List ℕ → List Reward → Type 0
AreListed l [] = Unit
AreListed l (r ∷ rest) = (member r.address l ≡ true) × AreListed l rest

-- The P-Reps of all lists are listed.
unfoldable pub AllListed : List ℕ → List PRep → Type 0
AllListed l [] = Unit
AllListed l (prep ∷ rest) =
    All (λ (info : PRepDelegationInfo). member info.address l ≡ true) prep.delegations
    × AllListed l rest

no_reward-AreListed :
    (l : List ℕ) (infos : List PRepDelegationInfo)
    → All (λ (info : PRepDelegationInfo). member info.address l ≡ true) infos
    → AreListed l (map no_reward infos)
unfolding AreListed
no_reward-AreListed l [] h = tt
no_reward-AreListed l (info ∷ rest) h = (h.0, no_reward-AreListed l rest h.1)

add_period-AreListed :
    (l : List ℕ) (t : ℤ) (s e : ℕ) (gv : GovernanceVariable) (rewards : List Reward)
    → AreListed l rewards
    → AreListed l (add_period t s e gv rewards)
unfolding AreListed add_period
add_period-AreListed l t s e gv [] h = tt
add_period-AreListed l t s e gv (r ∷ rest) h = (h.0, add_period-AreListed l t s e gv rest h.1)

collect_rewards-AreListed :
    (l : List ℕ) (start end : ℕ) (t : ℤ) (gvs : List GovernanceVariable) (rewards : List Reward)
    → AreListed l rewards
    → AreListed l (collect_rewards start end t gvs rewards)
unfolding collect_rewards
collect_rewards-AreListed l start end t [] rewards h = h
collect_rewards-AreListed l start end t (gv ∷ rest) rewards h =
    elim (Option-cases (period_of gv_height start end gv rest)) [
      | inl outside ↦
          rw (outside, collect_rewards) (collect_rewards-AreListed l start end t rest rewards h)
      | inr ((s, e), inside) ↦
          rw (inside, collect_rewards)
            (collect_rewards-AreListed l start end t rest (add_period t s e gv rewards)
              (add_period-AreListed l t s e gv rewards h))
    ]

paid_in :
    (after before q new r st : ℤ)
    → new ≡ q +ℤ r
    → after +ℤ q ≡ before +ℤ new
    → after +ℤ st ≡ before +ℤ (st +ℤ r)
paid_in after before q new r st e h = grind (int_laws, e, h)

added_up :
    (after before st t : ℤ) → after +ℤ pos 0 ≡ before +ℤ t → after +ℤ st ≡ before +ℤ (st +ℤ t)
added_up after before st t h = grind (int_laws, h)

from_start : (after before t : ℤ) → after +ℤ pos 0 ≡ before +ℤ t → after ≡ before +ℤ t
from_start after before t h = grind (int_laws, h)

module _ {H : Type 0} (new_hash : H) (absorb : H → ℕ → IScoreData → H) (absorb_hash : H → H → H)
    (G : Engine ℕ IScoreData) where
  abbrev State : Type 0
  State = Progress new_hash absorb absorb_hash G

  rewarded-score :
      (revision end block_height : ℕ) (r : Reward) (o : Option IScoreData)
      → (rewarded new_hash absorb absorb_hash G revision end block_height r o).i_score
        ≡ score o +ℤ r.i_score
  unfolding score
  rewarded-score revision end block_height r none = grind int_laws
  rewarded-score revision end block_height r (some ia) = refl

  abbrev Balances : List ℕ → State → State → Type 0
  Balances l s s' = total G l s'.table +ℤ s.total_reward ≡ total G l s.table +ℤ s'.total_reward

  write_rewards-Balances :
      (l : List ℕ) (revision end block_height : ℕ) (rewards : List Reward) (s : State)
      → Distinct l
      → AreListed l rewards
      → Balances l s
          (write_rewards new_hash absorb absorb_hash G revision end block_height rewards s)
  unfolding write_rewards AreListed
  write_rewards-Balances l revision end block_height [] s d h = refl
  write_rewards-Balances l revision end block_height (r ∷ rest) s d h =
      let old = G.get s.table r.address in
      let ia = rewarded new_hash absorb absorb_hash G revision end block_height r old in
      let step =
        paid_in _ _ _ _ _ s.total_reward (rewarded-score revision end block_height r old)
          (total-set G l s.table r.address ia d h.0) in
      chain _ _ _ _ _ _ step (write_rewards-Balances l revision end block_height rest _ d h.1)

  reward_period-Balances :
      (l : List ℕ) (revision : ℕ) (gvs : List GovernanceVariable) (to : ℕ) (prep : PRep)
      (period : Option (ℕ × ℕ)) (s : State)
      → Distinct l
      → All (λ (info : PRepDelegationInfo). member info.address l ≡ true) prep.delegations
      → Balances l s (reward_period new_hash absorb absorb_hash G revision gvs to prep period s)
  unfolding reward_period set_prep_reward
  reward_period-Balances l revision gvs to prep none s d h = refl
  reward_period-Balances l revision gvs to prep (some (start, end)) s d h =
      elim (Bool-cases (is_zero prep.total_delegation)) [
        | inl nothing ↦ rw nothing refl
        | inr something ↦
            let rewards =
              collect_rewards start end prep.total_delegation gvs
                (map no_reward prep.delegations) in
            let listed =
              collect_rewards-AreListed l start end prep.total_delegation gvs
                (map no_reward prep.delegations) (no_reward-AreListed l prep.delegations h) in
            rw something (
              added_up _ _ s.total_reward _ (
                write_rewards-Balances l revision end to rewards
                  (record {
                    table = s.table;
                    new_account = 0;
                    total_reward = pos 0;
                    hash = new_hash;
                  })
                  d listed))
      ]

  reward_preps-Balances :
      (l : List ℕ) (revision : ℕ) (gvs : List GovernanceVariable) (start to : ℕ) (preps : List PRep)
      (s : State)
      → Distinct l
      → AllListed l preps
      → Balances l s (reward_preps new_hash absorb absorb_hash G revision gvs start to preps s)
  unfolding reward_preps AllListed
  reward_preps-Balances l revision gvs start to [] s d h = refl
  reward_preps-Balances l revision gvs start to (prep ∷ rest) s d h =
      chain _ _ _ _ _ _
        (reward_period-Balances l revision gvs to prep (period_of prep_height start to prep rest) s
          d h.0)
        (reward_preps-Balances l revision gvs start to rest _ d h.1)

  -- If all P-Reps of the lists are among some accounts, each once, the rewards of P-Reps add to the
  -- I-Scores of these accounts exactly the total that is reported.
  pub calculate_prep_reward-total :
      (l : List ℕ) (revision : ℕ) (gvs : List GovernanceVariable) (preps : List PRep)
      (calc_done to : ℕ) (table : G.Table)
      → Distinct l
      → AllListed l preps
      → let after =
          calculate_prep_reward new_hash absorb absorb_hash G revision gvs preps calc_done to
            table in
        total G l after.table ≡ total G l table +ℤ after.total_reward
  unfolding calculate_prep_reward
  calculate_prep_reward-total l revision gvs preps calc_done to table d h = from_start _ _ _ (
      reward_preps-Balances l revision gvs calc_done to preps
        (record { table = table; new_account = 0; total_reward = pos 0; hash = new_hash }) d h)
