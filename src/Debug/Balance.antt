-- ===== src/Debug/Balance.antt =====
-- The totals of the debugged I-Scores: a result stays the I-Score of its address in the query DB with
-- what was written as its betas.
use rewardcalculator.Base.{
  ℕ, nat_eq, ◌≡◌, refl, ap, Bool, true, false, Option, some, List, [], ◌∷◌, map, ltb, if◌then◌else◌,
  Bool-cases, inl, inr,
}
use rewardcalculator.Base.Int.{ℤ, pos, ◌+ℤ◌, int_laws}
use rewardcalculator.Debug.Types.{Reward, DelegatedInfo, DelegationInfo}
use rewardcalculator.Debug.Change.{
  change_reward, with_generated, with_validated, with_delegated, with_delegation,
}

abbrev pub betas : Reward → ℤ
betas r = r.beta1.beta1_i_score +ℤ r.beta2.beta2_i_score +ℤ r.beta3.beta3_i_score

unfoldable pub total_betas : List Reward → ℤ
total_betas [] = pos 0
total_betas (r ∷ l) = betas r +ℤ total_betas l

abbrev pub reward_height : Reward → ℕ
reward_height r = r.block_height

-- A height above that of one at least.
abbrev pub is_above_some : ℕ → List ℕ → Bool
is_above_some h [] = false
is_above_some h (x ∷ l) = let rest = is_above_some h l in if ltb x h then true else rest

-- A change that adds an I-Score to the betas.
pub record Adds (change : Reward → Reward) (x : ℕ) : Type 0 where
  pub sum : (r : Reward) → betas (change r) ≡ betas r +ℤ pos x
  pub height : (r : Reward) → reward_height (change r) ≡ reward_height r

pub record Changed (l : List Reward) (x : ℕ) (o : Option (List Reward)) : Type 0 where
  pub rewards : List Reward
  pub is : o ≡ some rewards
  pub total : total_betas rewards ≡ total_betas l +ℤ pos x
  pub heights : map reward_height rewards ≡ map reward_height l

pub change_reward-Changed :
    (h : ℕ) (change : Reward → Reward) (x : ℕ) (l : List Reward)
    → Adds change x
    → is_above_some h (map reward_height l) ≡ true
    → Changed l x (change_reward h change l)
unfolding change_reward total_betas
change_reward-Changed h change x [] adds above = absurd (let it = above in cc)
change_reward-Changed h change x (r ∷ l) adds above = elim (Bool-cases (ltb r.block_height h)) [
  | inl below ↦ rw below (record {
    rewards = change r ∷ l;
    is = refl;
    total = grind (int_laws, adds.sum r);
    heights = ap (λ y. y ∷ map reward_height l) (adds.height r);
  })
  | inr not_below ↦
      let later = change_reward-Changed h change x l adds (let it = above in rw not_below at it) in
      rw (not_below, later.is)
        (record {
          rewards = r ∷ later.rewards;
          is = refl;
          total = grind (int_laws, later.total);
          heights = ap (λ y. reward_height r ∷ y) later.heights;
        })
]

pub generated-Adds : (x : ℕ) → Adds (with_generated x) x
generated-Adds x = record { sum = λ r. omega int_laws; height = λ r. refl }

pub validated-Adds : (n x : ℕ) → Adds (with_validated n x) x
unfolding with_validated
validated-Adds n x = record { sum = λ r. omega int_laws; height = λ r. refl }

pub delegated-Adds : (info : DelegatedInfo) → Adds (with_delegated info) info.i_score
delegated-Adds info = record { sum = λ r. omega int_laws; height = λ r. refl }

pub delegation-Adds : (info : DelegationInfo) → Adds (with_delegation info) info.i_score
delegation-Adds info = record { sum = λ r. omega int_laws; height = λ r. refl }
