-- ===== src/Calculate/Transactions.antt =====
-- calculateIISSTX of core/msg_calculate.go: the delegation transactions of a period. The state
-- hash is a hash function that takes the written accounts one by one.
pub mod Effect
use rewardcalculator.Base.{
  ℕ, nat_eq, ◌+◌, Bool, Option, none, some, List, [], ◌∷◌, if◌then◌else◌, ◌==◌,
}
use rewardcalculator.Base.Int.{ℤ, pos, ◌+ℤ◌, ◌-ℤ◌}
use rewardcalculator.Account.Types.{DelegateData, IScoreData}
use rewardcalculator.Db.Engine.{Engine}
use rewardcalculator.Context.Governance.{GovernanceVariable}
use rewardcalculator.Context.Candidates.{
  PRepCandidate, TxDataType, delegate, prep_reg, prep_un_reg, unknown, IissTx,
}
use rewardcalculator.Calculate.Delegation.{Calculated, calculate_i_score}

-- NewIScoreAccountFromIISS, of decoded data.
unfoldable pub new_i_score_account_from_iiss : ℕ → List DelegateData → IScoreData
new_i_score_account_from_iiss block_height l = record {
  i_score = pos 0;
  block_height = block_height;
  delegations = l;
}

abbrev pub add_reward : Option ℤ → ℤ → ℤ
add_reward none stats = stats
add_reward (some reward) stats = stats +ℤ reward

module _ {H : Type 0} (absorb : H → ℕ → IScoreData → H) (candidates : List (ℕ × PRepCandidate))
    (gvs : List GovernanceVariable) (G : Engine ℕ IScoreData) where
  -- The calculate DB, and what the loop has counted.
  pub record Progress : Type 0 where
    pub table : G.Table
    pub new_account : ℕ
    pub stats : ℤ
    pub hash : H

  -- The calculation with the new delegations and the write to the account DB.
  unfoldable pub write_account : ℕ → ℕ → IScoreData → Progress → Progress
  write_account block_height address new_ia s =
      let c = calculate_i_score candidates gvs block_height new_ia in
      record {
        table = G.set s.table address c.account;
        new_account = s.new_account;
        stats = add_reward c.reward s.stats;
        hash = absorb s.hash address c.account;
      }

  -- What the old delegations earned from the transaction's block height on.
  unfoldable pub old_reward : ℕ → ℕ → IScoreData → ℤ
  old_reward block_height tx_height ia =
      (calculate_i_score candidates gvs block_height
        (record ia { block_height = tx_height; i_score = pos 0 })).account.i_score

  unfoldable pub delegated : ℕ → ℕ → IScoreData → Option IScoreData → ℕ → Progress → Progress
  unfolding write_account old_reward
  delegated block_height address new_ia none tx_height s =
      write_account block_height address new_ia (record s { new_account = s.new_account + 1 })
  delegated block_height address new_ia (some ia) tx_height s =
      if ia.block_height == block_height
      then write_account block_height address
          (record new_ia { i_score = ia.i_score -ℤ old_reward block_height tx_height ia })
          (record s { stats = s.stats -ℤ old_reward block_height tx_height ia })
      else s

  unfoldable pub apply_tx : ℕ → ℕ → ℕ → TxDataType → Progress → Progress
  unfolding delegated new_i_score_account_from_iiss
  apply_tx block_height address tx_height (delegate l) s =
      delegated block_height address (new_i_score_account_from_iiss tx_height l)
        (G.get s.table address) tx_height s
  apply_tx block_height address tx_height prep_reg s = s
  apply_tx block_height address tx_height prep_un_reg s = s
  apply_tx block_height address tx_height (unknown n) s = s

  unfoldable pub calculate_iiss_tx : ℕ → List IissTx → Progress → Progress
  unfolding apply_tx
  calculate_iiss_tx block_height [] s = s
  calculate_iiss_tx block_height (tx ∷ rest) s =
      calculate_iiss_tx block_height rest
        (apply_tx block_height tx.address tx.block_height tx.data_type s)
