-- ===== src/Debug/Change.antt =====
-- The rewards of core/calculation_debug.go: getReward with what the callers change through its
-- pointer, and the I-Scores in 64 bits. `none` is a panic.
use rewardcalculator.Base.{
  ℕ, ◌+◌, ◌*◌, ◌/◌, Option, none, some, List, [], ◌∷◌, ◌++◌, ltb, ◌==◌, if◌then◌else◌,
}
use rewardcalculator.Base.Int.{ℤ, pos, ◌+ℤ◌, to_uint64}
use rewardcalculator.Base.Words.{wrap64}
use rewardcalculator.Calculate.Delegation.{reward_divider}
use rewardcalculator.Debug.Types.{Reward, CalcResult, ValidateInfo, DelegatedInfo, DelegationInfo}

abbrev pub and_more : Reward → Option (List Reward) → Option (List Reward)
and_more r none = none
and_more r (some l) = some (r ∷ l)

-- getReward, and a change of the reward that it points to. The loop goes from the last reward down
-- to the first and does not stop at one that it finds. Without one, the change panics.
unfoldable pub change_reward : ℕ → (Reward → Reward) → List Reward → Option (List Reward)
change_reward block_height change [] = none
change_reward block_height change (r ∷ rest) =
    let later = change_reward block_height change rest in
    if ltb r.block_height block_height then some (change r ∷ rest) else and_more r later

abbrev pub with_rewards : CalcResult → ℕ → Option (List Reward) → Option CalcResult
with_rewards r i_score none = none
with_rewards r i_score (some rewards) =
    some (record r { rewards = rewards; total_i_score = r.total_i_score +ℤ pos i_score })

-- A change of the reward of a height, and of the total by an I-Score.
unfoldable pub change_result : ℕ → (Reward → Reward) → ℕ → CalcResult → Option CalcResult
unfolding change_reward
change_result block_height change i_score r =
    with_rewards r i_score (change_reward block_height change r.rewards)

-- The number of I-Scores and blocks for one count of validators.
unfoldable pub add_validated : ℕ → ℕ → List ValidateInfo → List ValidateInfo
add_validated validator_count i_score [] =
    record { validator_count = validator_count; block_count = 1; i_score = i_score } ∷ []
add_validated validator_count i_score (v ∷ rest) =
    let rest' = add_validated validator_count i_score rest in
    if v.validator_count == validator_count
    then record v {
      block_count = wrap64 (v.block_count + 1);
      i_score = wrap64 (v.i_score + i_score);
    }
      ∷ rest
    else v ∷ rest'

abbrev pub with_generated : ℕ → Reward → Reward
with_generated i_score r = record r {
  beta1 = record r.beta1 {
    beta1_i_score = r.beta1.beta1_i_score +ℤ pos i_score;
    generate = record {
      block_count = wrap64 (r.beta1.generate.block_count + 1);
      i_score = wrap64 (r.beta1.generate.i_score + i_score);
    };
  };
}

unfoldable pub with_validated : ℕ → ℕ → Reward → Reward
unfolding add_validated
with_validated validator_count i_score r = record r {
  beta1 = record r.beta1 {
    beta1_i_score = r.beta1.beta1_i_score +ℤ pos i_score;
    validate = add_validated validator_count i_score r.beta1.validate;
  };
}

abbrev pub with_delegated : DelegatedInfo → Reward → Reward
with_delegated info r = record r {
  beta2 = record {
    beta2_i_score = r.beta2.beta2_i_score +ℤ pos info.i_score;
    delegated_info = r.beta2.delegated_info ++ info ∷ [];
  };
}

abbrev pub with_delegation : DelegationInfo → Reward → Reward
with_delegation info r = record r {
  beta3 = record {
    beta3_i_score = r.beta3.beta3_i_score +ℤ pos info.i_score;
    delegation_info = r.beta3.delegation_info ++ info ∷ [];
  };
}

-- rewardRep * period * Delegate / rewardDivider, each product in 64 bits.
unfoldable pub beta3_of : ℕ → ℕ → ℤ → ℕ
beta3_of reward_rep period delegate =
    wrap64 (wrap64 (reward_rep * period) * to_uint64 delegate) / reward_divider

-- prepReward * delegatedAmount * period / totalDelegation, likewise.
unfoldable pub beta2_of : ℕ → ℤ → ℕ → ℤ → ℕ
beta2_of prep_reward delegated_amount period total_delegation =
    wrap64 (wrap64 (prep_reward * to_uint64 delegated_amount) * period) / to_uint64 total_delegation
