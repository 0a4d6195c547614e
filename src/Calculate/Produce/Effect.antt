-- ===== src/Calculate/Produce/Effect.antt =====
-- What the block produce rewards add to the I-Scores.
use rewardcalculator.Base.{
  ℕ, nat_eq, ◌+◌, ◌*◌, ◌/◌, ◌≤◌, ◌<◌, ◌≡◌, refl, arith, true, Option, none, some, List, [], ◌∷◌,
  ◌++◌, ◌∙◌, length, lookup, insert, inl, inr, Option-cases,
}
use rewardcalculator.Base.Int.{ℤ, pos, ◌+ℤ◌, int_laws}
use rewardcalculator.Account.Types.{IScoreData}
use rewardcalculator.Db.Engine.{Engine}
use rewardcalculator.Context.Governance.{GovernanceVariable, get_gv_by_block_height}
use rewardcalculator.Calculate.Total.{score, member, Distinct, total, total-set, chain}
use rewardcalculator.Calculate.Produce.{
  IissBlockProduceInfo, Rewards, reward_in, add_reward, add_validators, reward_block,
  collect_rewards, Progress, rewarded, count_new, write_rewards, calculate_iiss_block_produce,
}

-- All rewards of the map.
pub sum_rewards : Rewards → ℕ
sum_rewards [] = 0
sum_rewards ((a, r) ∷ m) = r + sum_rewards m

-- The block produce reward that a block finds.
pub block_reward : List GovernanceVariable → IissBlockProduceInfo → ℕ
block_reward gvs bp = elim (get_gv_by_block_height bp.block_height gvs) as (λ _. ℕ) [
  | none ↦ 0
  | some gv ↦ gv.block_produce_reward
]

-- A share of the reward for each validator.
shares : ℕ → List ℕ → ℕ
shares r [] = 0
shares r (v ∷ l) = r / length (v ∷ l) * length (v ∷ l)

-- What is paid for the blocks: the generator's reward and the validators' shares.
pub paid : List GovernanceVariable → List IissBlockProduceInfo → ℕ
unfolding shares block_reward
paid gvs [] = 0
paid gvs (bp ∷ rest) =
    block_reward gvs bp + shares (block_reward gvs bp) bp.validator + paid gvs rest

shares_zero : (l : List ℕ) → shares 0 l ≡ 0
unfolding shares
shares_zero [] = refl
shares_zero (v ∷ l) = omega arith

shares_bounds : (r : ℕ) (l : List ℕ) → (shares r l ≤ r) × (0 < length l → r < shares r l + length l)
unfolding shares
shares_bounds r [] = (omega arith, λ h. omega arith)
shares_bounds r (v ∷ l) = (omega arith, λ h. omega arith)

sum_rewards-insert :
    (a v : ℕ) (m : Rewards)
    → sum_rewards (insert a v m) + reward_in (lookup a m) ≡ sum_rewards m + v
unfolding sum_rewards
sum_rewards-insert a v [] = ground arith
sum_rewards-insert a v ((b, r) ∷ m) = ground (arith, sum_rewards-insert a v m)

sum_rewards-add_reward :
    (a r : ℕ) (m : Rewards) → sum_rewards (add_reward a r m) ≡ sum_rewards m + r
unfolding add_reward
sum_rewards-add_reward a r m = omega (arith, sum_rewards-insert a (reward_in (lookup a m) + r) m)

sum_rewards-add_validators :
    (l : List ℕ) (r : ℕ) (m : Rewards)
    → sum_rewards (add_validators l r m) ≡ sum_rewards m + r * length l
unfolding add_validators
sum_rewards-add_validators [] r m = omega arith
sum_rewards-add_validators (v ∷ l) r m =
    omega (arith, sum_rewards-add_validators l r (add_reward v r m), sum_rewards-add_reward v r m)

sum_rewards-reward_block :
    (r g : ℕ) (l : List ℕ) (m : Rewards)
    → sum_rewards (reward_block r g l m) ≡ sum_rewards m + r + shares r l
unfolding reward_block shares
sum_rewards-reward_block r g [] m = omega (arith, sum_rewards-add_reward g r m)
sum_rewards-reward_block r g (v ∷ l) m = omega (
  arith,
  sum_rewards-add_validators (v ∷ l) (r / length (v ∷ l)) (add_reward g r m),
  sum_rewards-add_reward g r m,
)

sum_rewards-collect_rewards :
    (gvs : List GovernanceVariable) (bps : List IissBlockProduceInfo) (m : Rewards)
    → sum_rewards (collect_rewards gvs bps m) ≡ sum_rewards m + paid gvs bps
unfolding collect_rewards paid block_reward
sum_rewards-collect_rewards gvs [] m = omega arith
sum_rewards-collect_rewards gvs (bp ∷ rest) m =
    elim (Option-cases (get_gv_by_block_height bp.block_height gvs)) [
      | inl none_found ↦
          rw (none_found, collect_rewards, paid, block_reward)
            (omega (arith, sum_rewards-collect_rewards gvs rest m, shares_zero bp.validator))
      | inr (gv, found) ↦
          rw (found, collect_rewards, paid, block_reward)
            (omega (
              arith,
              sum_rewards-collect_rewards gvs rest
                  (reward_block gv.block_produce_reward bp.generator bp.validator m),
              sum_rewards-reward_block gv.block_produce_reward bp.generator bp.validator m,
            ))
    ]

paid_in :
    (after before q new r st : ℤ)
    → new ≡ q +ℤ r
    → after +ℤ q ≡ before +ℤ new
    → after +ℤ st ≡ before +ℤ (st +ℤ r)
paid_in after before q new r st e h = grind (int_laws, e, h)

add_more : (t st : ℤ) (r n : ℕ) → t ≡ st +ℤ pos r +ℤ pos n → t ≡ st +ℤ pos (r + n)
add_more t st r n h = grind (int_laws, h)

from_zero : (n p : ℕ) → n ≡ 0 + p → pos 0 +ℤ pos n ≡ pos p
from_zero n p h = grind (int_laws, h)

from_start : (after before t p : ℤ) → after +ℤ pos 0 ≡ before +ℤ t → t ≡ p → after ≡ before +ℤ p
from_start after before t p h e = grind (int_laws, h, e)

-- The rewards that the blocks find.
pub sum_block_rewards : List GovernanceVariable → List IissBlockProduceInfo → ℕ
sum_block_rewards gvs [] = 0
sum_block_rewards gvs (bp ∷ rest) = block_reward gvs bp + sum_block_rewards gvs rest

paid_bound :
    (gvs : List GovernanceVariable) (bps : List IissBlockProduceInfo)
    → (sum_block_rewards gvs bps ≤ paid gvs bps) × (paid gvs bps ≤ 2 * sum_block_rewards gvs bps)
unfolding paid sum_block_rewards
paid_bound gvs [] = (omega arith, omega arith)
paid_bound gvs (bp ∷ rest) =
    let share = shares_bounds (block_reward gvs bp) bp.validator in
    let below = paid_bound gvs rest in
    (omega (arith, share.0, below.0), omega (arith, share.0, below.1))

module _ (G : Engine ℕ IScoreData) where
  -- Every address of the rewards is listed.
  unfoldable pub AreListed : List ℕ → Rewards → Type 0
  AreListed l [] = Unit
  AreListed l ((a, r) ∷ m) = (member a l ≡ true) × AreListed l m

  rewarded-score :
      (block_height r : ℕ) (o : Option IScoreData)
      → (rewarded G block_height r o).i_score ≡ score o +ℤ pos r
  unfolding score ◌+ℤ◌
  rewarded-score block_height r none = ground arith
  rewarded-score block_height r (some ia) = refl

  abbrev Balances : List ℕ → Progress G → Progress G → Type 0
  Balances l s s' = total G l s'.table +ℤ s.total_reward ≡ total G l s.table +ℤ s'.total_reward

  write_rewards-Balances :
      (l : List ℕ) (block_height : ℕ) (m : Rewards) (s : Progress G)
      → Distinct l
      → AreListed l m
      → Balances l s (write_rewards G block_height m s)
        × ((write_rewards G block_height m s).total_reward ≡ s.total_reward +ℤ pos (sum_rewards m))
  unfolding write_rewards AreListed sum_rewards
  write_rewards-Balances l block_height [] s d h = (refl, grind int_laws)
  write_rewards-Balances l block_height ((a, r) ∷ m) s d h =
      let old = G.get s.table a in
      let ia = rewarded G block_height r old in
      let s' : Progress G = record {
        table = G.set s.table a ia;
        new_account = count_new G old s.new_account;
        total_reward = s.total_reward +ℤ pos r;
        ia_slice = s.ia_slice ++ (a, ia) ∷ [];
      } in
      let rest = write_rewards-Balances l block_height m s' d h.1 in
      let step =
        paid_in _ _ _ _ _ s.total_reward (rewarded-score block_height r old)
          (total-set G l s.table a ia d h.0) in
      (chain _ _ _ _ _ _ step rest.0, add_more _ s.total_reward r (sum_rewards m) rest.1)

  -- Where the rewarded accounts are among some accounts, each listed once, the block produce
  -- rewards add to the I-Scores of these accounts exactly the total that is reported, which is what
  -- is paid for the blocks: the generator's reward and a share for each validator, together at
  -- least the rewards of the blocks and at most twice that.
  pub calculate_iiss_block_produce-total :
      (gvs : List GovernanceVariable) (block_height : ℕ) (bps : List IissBlockProduceInfo)
      (table : G.Table) (l : List ℕ)
      → Distinct l
      → AreListed l (collect_rewards gvs bps [])
      → let after = calculate_iiss_block_produce G gvs block_height bps table in
        (total G l after.table ≡ total G l table +ℤ pos (paid gvs bps))
        × (after.total_reward ≡ pos (paid gvs bps))
        × (sum_block_rewards gvs bps ≤ paid gvs bps)
        × (paid gvs bps ≤ 2 * sum_block_rewards gvs bps)
  unfolding calculate_iiss_block_produce sum_rewards
  calculate_iiss_block_produce-total gvs block_height bps table l d h =
      let start : Progress G = record {
        table = table;
        new_account = 0;
        total_reward = pos 0;
        ia_slice = [];
      } in
      let (kept, counted) =
        write_rewards-Balances l block_height (collect_rewards gvs bps []) start d h in
      let collected = sum_rewards-collect_rewards gvs bps [] in
      let reported = counted ∙ from_zero _ (paid gvs bps) collected in
      let bound = paid_bound gvs bps in
      (from_start _ _ _ _ kept reported, reported, bound.0, bound.1)
