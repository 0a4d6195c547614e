-- ===== src/Calculate/Transactions/Effect.antt =====
-- What the delegation transactions of a period do to the I-Scores.
use rewardcalculator.Base.{
  ℕ, nat_eq, ◌+◌, ◌≡◌, refl, arith, true, Option, none, some, List, [], ◌∷◌, if◌then◌else◌, ◌==◌,
  leb, Bool-cases, inl, inr,
}
use rewardcalculator.Base.Int.{ℤ, pos, ◌+ℤ◌, ◌-ℤ◌, is_zero, int_laws, pos_part, neg_part}
use rewardcalculator.Base.Words.{wrap64}
use rewardcalculator.Account.Types.{DelegateData, IScoreData}
use rewardcalculator.Db.Engine.{Engine}
use rewardcalculator.Context.Governance.{GovernanceVariable}
use rewardcalculator.Context.Candidates.{
  PRepCandidate, TxDataType, delegate, prep_reg, prep_un_reg, unknown, IissTx,
}
use rewardcalculator.Calculate.Delegation.{add_delegations, calculate_to, calculate_i_score}
use rewardcalculator.Calculate.Total.{score, member, Distinct, total, total-set, chain}
use rewardcalculator.Calculate.Transactions.{
  new_i_score_account_from_iiss, Progress, add_reward, write_account, old_reward, delegated,
  apply_tx, calculate_iiss_tx,
}

cancel_new :
    (after before s t q : ℤ)
    → q ≡ pos 0
    → after +ℤ q +ℤ s ≡ before +ℤ pos 0 +ℤ t
    → after +ℤ s ≡ before +ℤ t
cancel_new after before s t q z h = grind (int_laws, h, z)

cancel_old :
    (after before s t q old r : ℤ)
    → q ≡ old
    → after +ℤ q +ℤ (s -ℤ r) ≡ before +ℤ (old -ℤ r) +ℤ t
    → after +ℤ s ≡ before +ℤ t
cancel_old after before s t q old r e h = grind (int_laws, h, e)

-- All addresses of the transactions are listed.
unfoldable pub AreListed : List ℕ → List IissTx → Type 0
AreListed l [] = Unit
AreListed l (tx ∷ rest) = (member tx.address l ≡ true) × AreListed l rest

module _ (candidates : List (ℕ × PRepCandidate)) (gvs : List GovernanceVariable) where
  credit : (g old stats : ℤ) → stats +ℤ g +ℤ old ≡ stats +ℤ (if is_zero g then old else old +ℤ g)
  credit g old stats = elim (Bool-cases (is_zero g)) [
    | inl z ↦ let zero : pos_part g + neg_part g ≡ 0 = ground arith in rw z (grind int_laws)
    | inr nz ↦ rw nz (grind int_laws)
  ]

  gain : ℕ → IScoreData → ℤ
  gain block_height ia =
      add_delegations candidates gvs ia.block_height block_height (pos 0) ia.delegations

  -- The calculation adds what it reports to the I-Score.
  add_reward-calculate_to :
      (block_height : ℕ) (ia : IScoreData) (stats : ℤ)
      → add_reward (calculate_to candidates gvs block_height ia).reward stats +ℤ ia.i_score
        ≡ stats +ℤ (calculate_to candidates gvs block_height ia).account.i_score
  unfolding calculate_to gain
  add_reward-calculate_to block_height ia stats =
      elim (Bool-cases (leb block_height ia.block_height)) [
        | inl late ↦ rw (late, calculate_to) refl
        | inr in_time ↦ rw (in_time, calculate_to) (credit (gain block_height ia) ia.i_score stats)
      ]

  pub add_reward-calculate_i_score :
      (block_height : ℕ) (ia : IScoreData) (stats : ℤ)
      → add_reward (calculate_i_score candidates gvs block_height ia).reward stats +ℤ ia.i_score
        ≡ stats +ℤ (calculate_i_score candidates gvs block_height ia).account.i_score
  unfolding calculate_i_score
  add_reward-calculate_i_score block_height ia stats =
      add_reward-calculate_to
        (if block_height == 0 then wrap64 (ia.block_height + 1) else block_height) ia stats

module _ {H : Type 0} (absorb : H → ℕ → IScoreData → H) (candidates : List (ℕ × PRepCandidate))
    (gvs : List GovernanceVariable) (G : Engine ℕ IScoreData) where
  abbrev State : Type 0
  State = Progress absorb candidates gvs G

  -- The I-Scores of the listed accounts less what the statistics have counted.
  abbrev pub Balances : List ℕ → State → State → Type 0
  Balances l s s' = total G l s'.table +ℤ s.stats ≡ total G l s.table +ℤ s'.stats

  write_account-total :
      (l : List ℕ) (block_height address : ℕ) (ia : IScoreData) (s : State)
      → Distinct l
      → member address l ≡ true
      → total G l (write_account absorb candidates gvs G block_height address ia s).table
          +ℤ score (G.get s.table address)
          +ℤ s.stats
        ≡ total G l s.table
          +ℤ ia.i_score
          +ℤ (write_account absorb candidates gvs G block_height address ia s).stats
  unfolding write_account
  write_account-total l block_height address ia s d m = grind (
    int_laws,
    add_reward-calculate_i_score candidates gvs block_height ia s.stats,
    total-set G l s.table address (calculate_i_score candidates gvs block_height ia).account d m,
  )

  delegated-Balances :
      (l : List ℕ) (block_height address : ℕ) (dgs : List DelegateData) (o : Option IScoreData)
      (tx_height : ℕ) (s : State)
      → Distinct l
      → member address l ≡ true
      → G.get s.table address ≡ o
      → Balances l s (
          delegated absorb candidates gvs G block_height address
            (new_i_score_account_from_iiss tx_height dgs)
            o
            tx_height
            s)
  unfolding delegated new_i_score_account_from_iiss score
  delegated-Balances l block_height address dgs none tx_height s d m h =
      let ia = new_i_score_account_from_iiss tx_height dgs in
      let step =
        write_account-total l block_height address ia (record s { new_account = s.new_account + 1 })
          d m in
      cancel_new _ _ _ _ _ (rw (h, score) refl) step
  delegated-Balances l block_height address dgs (some ia) tx_height s d m h =
      elim (Bool-cases (ia.block_height == block_height)) [
        | inl same ↦
            let r = old_reward absorb candidates gvs G block_height tx_height ia in
            let new_ia : IScoreData = record {
              i_score = ia.i_score -ℤ r;
              block_height = tx_height;
              delegations = dgs;
            } in
            let step =
              write_account-total l block_height address new_ia (record s { stats = s.stats -ℤ r })
                d m in
            let before : score (G.get s.table address) ≡ ia.i_score = rw (h, score) refl in
            rw same (cancel_old _ _ _ _ _ _ r before step)
        | inr other ↦ rw other refl
      ]

  apply_tx-Balances :
      (l : List ℕ) (block_height address tx_height : ℕ) (t : TxDataType) (s : State)
      → Distinct l
      → member address l ≡ true
      → Balances l s (apply_tx absorb candidates gvs G block_height address tx_height t s)
  unfolding apply_tx
  apply_tx-Balances l block_height address tx_height (delegate dgs) s d m =
      delegated-Balances l block_height address dgs (G.get s.table address) tx_height s d m refl
  apply_tx-Balances l block_height address tx_height prep_reg s d m = refl
  apply_tx-Balances l block_height address tx_height prep_un_reg s d m = refl
  apply_tx-Balances l block_height address tx_height (unknown n) s d m = refl

  -- Where the accounts of the transactions are among some accounts, each listed once, the
  -- statistics of the delegation transactions count exactly what the transactions change in the
  -- I-Scores of these accounts, the corrections downwards included.
  pub calculate_iiss_tx-Balances :
      (l : List ℕ) (block_height : ℕ) (txs : List IissTx) (s : State)
      → Distinct l
      → AreListed l txs
      → Balances l s (calculate_iiss_tx absorb candidates gvs G block_height txs s)
  unfolding calculate_iiss_tx AreListed
  calculate_iiss_tx-Balances l block_height [] s d m = refl
  calculate_iiss_tx-Balances l block_height (tx ∷ rest) s d m =
      let s' =
        apply_tx absorb candidates gvs G block_height tx.address tx.block_height tx.data_type s in
      chain _ _ _ _ _ _
        (apply_tx-Balances l block_height tx.address tx.block_height tx.data_type s d m.0)
        (calculate_iiss_tx-Balances l block_height rest s' d m.1)
