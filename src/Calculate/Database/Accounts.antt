-- ===== src/Calculate/Database/Accounts.antt =====
-- The accounts of a calculate DB after calculateDB of core/msg_calculate.go, told by block heights
-- and the rewards of single delegations.
use rewardcalculator.Base.{
  ℕ, nat_eq, ◌+◌, ◌≡◌, ◌≢◌, refl, ap, ◌∙◌, arith, Bool, true, false, Option, none, some, List, ltb,
  leb, ◌==◌, if◌then◌else◌, Bool-cases, inl, inr,
}
use rewardcalculator.Base.Words.{modulus, wrap64}
use rewardcalculator.Account.Types.{IScoreData}
use rewardcalculator.Db.Engine.{Engine}
use rewardcalculator.Db.Batch.{Batches}
use rewardcalculator.Context.Governance.{GovernanceVariable}
use rewardcalculator.Context.Candidates.{PRepCandidate}
use rewardcalculator.Calculate.Delegation.{calculate_to, calculate_i_score}
use rewardcalculator.Calculate.Database.Batched.{result}
use rewardcalculator.Calculate.Database.Carried.{found, carried, get-calculate_db}
use rewardcalculator.Calculate.Delegation.Earned.{
  up_to, calculate_to-up_to, reward-above, reward-below,
}

module _ (candidates : List (ℕ × PRepCandidate)) (gvs : List GovernanceVariable) where
  -- The account after a calculation: one that is not below the block height is not calculated. At
  -- block height 0 each is calculated for one block, unless its height is the last uint64.
  abbrev pub account_at : ℕ → IScoreData → Option IScoreData
  account_at block_height ia =
      if block_height == 0
      then (if ltb (ia.block_height + 1) modulus
          then some (up_to candidates gvs (ia.block_height + 1) ia)
          else none)
      else if ltb ia.block_height block_height
      then some (up_to candidates gvs block_height ia)
      else none

  abbrev pub or_old : Option IScoreData → Option IScoreData → Option IScoreData
  or_old none old = old
  or_old (some ia) old = some ia

  -- What the calculate DB has for an address: the account of the query DB after the calculation, or
  -- what it had.
  abbrev pub brought : ℕ → Option IScoreData → Option IScoreData → Option IScoreData
  brought block_height none old = old
  brought block_height (some ia) old = or_old (account_at block_height ia) old

  carried_to : ℕ → IScoreData → Option IScoreData → Option IScoreData
  carried_to to ia old =
      elim (calculate_to candidates gvs to ia).reward as (λ _. Option IScoreData) [
        | none ↦ old
        | some _ ↦ some (calculate_to candidates gvs to ia).account
      ]

  carried_to-above :
      (to : ℕ) (ia : IScoreData) (old : Option IScoreData)
      → leb to ia.block_height ≡ false
      → carried_to to ia old ≡ some (up_to candidates gvs to ia)
  unfolding carried_to
  carried_to-above to ia old above =
      rw (reward-above candidates gvs to ia above, carried_to)
        (ap some (calculate_to-up_to candidates gvs to ia above))

  carried_to-below :
      (to : ℕ) (ia : IScoreData) (old : Option IScoreData)
      → leb to ia.block_height ≡ true
      → carried_to to ia old ≡ old
  unfolding carried_to
  carried_to-below to ia old below = rw (reward-below candidates gvs to ia below, carried_to) refl

  carried-to :
      (block_height : ℕ) (ia : IScoreData) (old : Option IScoreData)
      → carried candidates gvs block_height ia old
        ≡ carried_to
            (if block_height == 0 then wrap64 (ia.block_height + 1) else block_height)
            ia
            old
  unfolding calculate_i_score carried_to
  carried-to block_height ia old = refl

  carried-brought :
      (block_height : ℕ) (ia : IScoreData) (old : Option IScoreData)
      → carried candidates gvs block_height ia old ≡ or_old (account_at block_height ia) old
  carried-brought block_height ia old =
      carried-to block_height ia old ∙ (elim (Bool-cases (block_height == 0)) [
        | inl at_zero ↦ elim (Bool-cases (ltb (ia.block_height + 1) modulus)) [
          | inl fits ↦
              let next : wrap64 (ia.block_height + 1) ≡ ia.block_height + 1 =
                ground (arith, fits) in
              rw (at_zero, fits, next)
                (carried_to-above (ia.block_height + 1) ia old (ground arith))
          | inr wraps ↦
              rw (at_zero, wraps)
                (carried_to-below (wrap64 (ia.block_height + 1)) ia old (ground (arith, wraps)))
        ]
        | inr later ↦ elim (Bool-cases (ltb ia.block_height block_height)) [
          | inl below ↦
              rw (later, below) (carried_to-above block_height ia old (ground (arith, below)))
          | inr not_below ↦
              rw (later, not_below)
                (carried_to-below block_height ia old (ground (arith, not_below)))
        ]
      ])

  found-brought :
      (block_height : ℕ) (o old : Option IScoreData)
      → found candidates gvs block_height o old ≡ brought block_height o old
  found-brought block_height none old = refl
  found-brought block_height (some ia) old = carried-brought block_height ia old

module _ {H : Type 0} (new_hash zero_hash : H) (absorb : H → ℕ → IScoreData → H)
    (candidates : List (ℕ × PRepCandidate)) (gvs : List GovernanceVariable)
    (G : Engine ℕ IScoreData) (T : Batches G) where
  -- A copy that is not interrupted leaves in the calculate DB, for every account of the sub-DB that
  -- is below the block height, the account at that height with its I-Score and what each of its
  -- delegations earns from its height on, nothing where the amount is below the minimum or goes to no
  -- P-Rep; every other key is as it was. At block height 0 each account is taken one block further,
  -- those whose next height passes 64 bits left out.
  pub calculate_db-carried :
      (quit : ℕ → Bool) (batch_count block_height : ℕ) (in_sub_db : ℕ → Bool)
      (read_db write_db : G.Table)
      → (result new_hash zero_hash absorb candidates gvs G T quit batch_count block_height in_sub_db
          read_db write_db).state_hash
        ≢ none
      → (j : ℕ)
      → G.get
          (result new_hash zero_hash absorb candidates gvs G T quit batch_count block_height
            in_sub_db read_db write_db).table
          j
        ≡ brought candidates gvs block_height
            (if in_sub_db j then G.get read_db j else none)
            (G.get write_db j)
  calculate_db-carried quit batch_count block_height in_sub_db read_db write_db done j =
      get-calculate_db new_hash zero_hash absorb candidates gvs G T quit batch_count block_height
        in_sub_db read_db write_db done j
      ∙ found-brought candidates gvs block_height (if in_sub_db j then G.get read_db j else none)
          (G.get write_db j)
