-- ===== src/Context/Governance.antt =====
-- Governance variables and Main/Sub P-Rep lists: GovernanceVariable, PRep, NewGVFromIISS and
-- setReward of core/db_management.go; UpdateGovernanceVariable, UpdatePRep, getGVByBlockHeight and
-- RollbackManagementDB of core/context.go. The values of a governance variable are HexInts that
-- are set from uint64s, so they are natural numbers.
pub mod Lists
use rewardcalculator.Base.{
  ℕ, nat_eq, ◌+◌, ◌*◌, ◌/◌, Bool, Option, none, some, List, [], ◌∷◌, ◌++◌, ltb, if◌then◌else◌,
}
use rewardcalculator.Base.Int.{ℤ}
use rewardcalculator.Db.Engine.{Engine}
use rewardcalculator.Context.Periods.{
  get_by_block_height, last_height, truncate, delete_above, Pruned, prune,
}

pub record IissGovernanceVariable : Type 0 where
  pub block_height : ℕ
  pub incentive_rep : ℕ
  pub reward_rep : ℕ
  pub main_prep_count : ℕ
  pub sub_prep_count : ℕ

pub record GovernanceVariable : Type 0 where
  pub block_height : ℕ
  pub calculated_incentive_rep : ℕ
  pub reward_rep : ℕ
  pub main_prep_count : ℕ
  pub sub_prep_count : ℕ
  pub block_produce_reward : ℕ
  pub prep_reward : ℕ

abbrev pub i_score_multiplier : ℕ
i_score_multiplier = 1000

unfoldable pub set_reward : GovernanceVariable → GovernanceVariable
set_reward gv = record gv {
  block_produce_reward = gv.calculated_incentive_rep * gv.main_prep_count * i_score_multiplier / 2;
  prep_reward = gv.calculated_incentive_rep * 100 * i_score_multiplier;
}

unfoldable pub new_gv_from_iiss : IissGovernanceVariable → GovernanceVariable
unfolding set_reward
new_gv_from_iiss iiss = set_reward (record {
  block_height = iiss.block_height;
  calculated_incentive_rep = iiss.incentive_rep;
  reward_rep = iiss.reward_rep;
  main_prep_count = iiss.main_prep_count;
  sub_prep_count = iiss.sub_prep_count;
  block_produce_reward = 0;
  prep_reward = 0;
})

pub record PRepDelegationInfo : Type 0 where
  pub address : ℕ
  pub delegated_amount : ℤ

pub record PRep : Type 0 where
  pub block_height : ℕ
  pub total_delegation : ℤ
  pub delegations : List PRepDelegationInfo

abbrev pub gv_height : GovernanceVariable → ℕ
gv_height gv = gv.block_height

abbrev pub prep_height : PRep → ℕ
prep_height prep = prep.block_height

unfoldable pub get_gv_by_block_height : ℕ → List GovernanceVariable → Option GovernanceVariable
get_gv_by_block_height = get_by_block_height gv_height

abbrev rises : Option ℕ → ℕ → Bool
rises none block_height = Bool.true
rises (some last) block_height = ltb last block_height

module _ (G : Engine ℕ GovernanceVariable) where
  -- The list in memory and the bucket of the management DB.
  abbrev pub GvStore : Type 0
  GvStore = List GovernanceVariable × G.Table

  -- A variable is taken if its height is above the last one's.
  unfoldable pub add_gvs : List IissGovernanceVariable → GvStore → GvStore
  unfolding new_gv_from_iiss
  add_gvs [] s = s
  add_gvs (iiss ∷ rest) (gvs, db) = add_gvs rest (
      if rises (last_height gv_height gvs) iiss.block_height
      then (gvs ++ new_gv_from_iiss iiss ∷ [], G.set db iiss.block_height (new_gv_from_iiss iiss))
      else (gvs, db))

  unfoldable pub update_governance_variable : ℕ → List IissGovernanceVariable → GvStore → GvStore
  unfolding add_gvs
  update_governance_variable prev_calc_done gv_list s =
      let (gvs, db) = add_gvs gv_list s in
      let pruned = prune gv_height G prev_calc_done gvs db in (pruned.memory, pruned.db)

module _ (R : Engine ℕ PRep) where
  abbrev pub PRepStore : Type 0
  PRepStore = List PRep × R.Table

  unfoldable pub add_preps : List PRep → PRepStore → PRepStore
  add_preps [] s = s
  add_preps (prep ∷ rest) (preps, db) =
      add_preps rest (preps ++ prep ∷ [], R.set db prep.block_height prep)

  unfoldable pub update_prep : ℕ → List PRep → PRepStore → PRepStore
  unfolding add_preps
  update_prep prev_calc_done prep_list s =
      let (preps, db) = add_preps prep_list s in
      let pruned = prune prep_height R prev_calc_done preps db in (pruned.memory, pruned.db)

module _ (G : Engine ℕ GovernanceVariable) (R : Engine ℕ PRep) where
  unfoldable pub rollback_management_db : ℕ → GvStore G × PRepStore R → GvStore G × PRepStore R
  rollback_management_db block_height ((gvs, gv_db), (preps, prep_db)) = (
    (truncate gv_height block_height gvs, delete_above gv_height G block_height gvs gv_db),
    (
      truncate prep_height block_height preps,
      delete_above prep_height R block_height preps prep_db,
    ),
  )
