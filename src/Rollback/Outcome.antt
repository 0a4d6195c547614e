-- ===== src/Rollback/Outcome.antt =====
-- What a rollback leaves, refused or not.
use rewardcalculator.Base.{
  ℕ, nat_eq, ◌<◌, ◌≡◌, refl, arith, true, Option, none, Bool-cases, inl, inr, ◌⊎◌, ◌≢◌,
}
use rewardcalculator.Db.Engine.{Engine}
use rewardcalculator.Claim.Types.{
  ClaimData, PreCommitData, PreCommitKey, BackupKey, pre_commit_key_eq, backup_key_eq,
}
use rewardcalculator.Claim.Backup.{RollbackCheck, too_low, no_need, needed}
use rewardcalculator.Claim.Block.{Stores}
use rewardcalculator.Claim.Rollback.{rollback_claim_db}
use rewardcalculator.Context.Info.{
  rollback_current_block_info, set_current_block_info, check_rollback, check_account_db_rollback,
  toggle_account_db, rollback_account_db_block_info, write_to_db,
}
use rewardcalculator.Context.Accounts.{Accounts, rollback_account_db, toggle, set_calc_db_list}
use rewardcalculator.Context.Governance.{GovernanceVariable, PRep, rollback_management_db}
use rewardcalculator.Rollback.{
  Calculator, Result, cancel_rollback, roll_back_accounts, after_claim_db, do_roll_back,
}

module _ {A : Type 0} where
  -- The last calculation is the one before.
  calc_done-rollback_account_db :
      (a : Accounts A) (to : ℕ)
      → (rollback_account_db a to).idb.info.calc_done ≡ a.idb.info.prev_calc_done
  unfolding rollback_account_db set_calc_db_list toggle toggle_account_db
      rollback_account_db_block_info write_to_db
  calc_done-rollback_account_db a to = ground arith

module _ (A : Type 0) (P : Engine PreCommitKey PreCommitData) (C : Engine ℕ ClaimData)
    (B : Engine BackupKey ClaimData) (G : Engine ℕ GovernanceVariable) (R : Engine ℕ PRep) where
  roll_back_accounts-calc_done :
      (c : Calculator A P C B G R) (to : ℕ)
      → check_rollback c.accounts.idb to ≡ true
      → (roll_back_accounts A P C B G R c to).accounts.idb.info.calc_done < to
  unfolding roll_back_accounts check_rollback check_account_db_rollback
  roll_back_accounts-calc_done c to passed =
      elim (Bool-cases (check_account_db_rollback c.accounts.idb to)) [
        | inl reached ↦
            rw reached (ground (arith, passed, calc_done-rollback_account_db c.accounts to))
        | inr not_reached ↦ rw not_reached (ground (arith, passed, not_reached))
      ]

  -- The calculator after a refused rollback, but for the code of the cancellation.
  abbrev pub SameStores : Calculator A P C B G R → Calculator A P C B G R → Type 0
  SameStores c c' =
      (c'.stores ≡ c.stores) × (c'.accounts ≡ c.accounts) × (c'.management ≡ c.management)

  abbrev pub Outcome : Calculator A P C B G R → ℕ → Result A P C B G R → Type 0
  Outcome c to (c', error) =
      ((error ≡ none)
        × (c'.accounts.idb.info.calc_done < to)
        × (c'.management ≡ rollback_management_db G R to c.management))
      ⊎ ((error ≢ none) × SameStores c c')

  after_claim_db-Outcome :
      (c : Calculator A P C B G R) (to : ℕ) (block_hash : Option ℕ)
      (r : Stores P C B × RollbackCheck)
      → check_rollback c.accounts.idb to ≡ true
      → Outcome c to (after_claim_db A P C B G R c to block_hash r)
  unfolding after_claim_db roll_back_accounts check_rollback rollback_current_block_info
      set_current_block_info write_to_db
  after_claim_db-Outcome c to block_hash (stores, too_low first rollback) passed =
      inr (cc, (refl, refl, refl))
  after_claim_db-Outcome c to block_hash (stores, no_need) passed =
      inl (refl, roll_back_accounts-calc_done c to passed, refl)
  after_claim_db-Outcome c to block_hash (stores, needed) passed = inl (
    refl,
    roll_back_accounts-calc_done
        (record c {
          stores = stores;
          accounts = record c.accounts {
            idb = rollback_current_block_info c.accounts.idb to block_hash;
          };
        })
        to passed,
    refl,
  )

  -- A rollback ends in one of two ways. It succeeds: the last calculation is below its height, and
  -- the governance variables and P-Rep lists are rolled back. Or it is refused with an error, and
  -- no store of claims, accounts or management data is changed.
  pub do_roll_back-Outcome :
      (c : Calculator A P C B G R) (to : ℕ) (block_hash : Option ℕ)
      → Outcome c to (do_roll_back A P C B G R c to block_hash)
  unfolding do_roll_back
  do_roll_back-Outcome c to block_hash = elim (Bool-cases (check_rollback c.accounts.idb to)) [
    | inl passed ↦ rw passed (
        after_claim_db-Outcome (record c { cancel_code = cancel_rollback }) to block_hash
          (rollback_claim_db P C B c.stores to) passed)
    | inr refused ↦ rw refused (inr (cc, (refl, refl, refl)))
  ]
