-- ===== src/Context/Accounts.antt =====
-- The account DBs of core/context.go: two sets of DBCount stores, one for queries and one for the
-- calculation, and the backups beside them (toggleAccountDB, resetAccountDB, rollbackAccountDB).
-- A directory of the file system that holds a store is kept as the store; renaming and removing
-- directories does not fail.
pub mod Undo
pub mod Opened
use rewardcalculator.Base.{
  ℕ, zero, suc, ◌+◌, ◌-◌, ◌*◌, ◌/◌, ◌%◌, ◌^◌, ◌≡◌, ◌↔◌, Bool, true, false, Option, none, some, List,
  [], ◌∷◌, arith, ◌==◌, ◌&&◌, not, if◌then◌else◌, Eq, ◌=?◌, lookup, insert, within, get_elem?,
}
use rewardcalculator.Context.Info.{IScoreDb, toggle_account_db, rollback_account_db_block_info}

-- `backup_%d_%d`: the block height of the calculation and the index, from 1.
pub record BackupName : Type 0 where
  pub calc_bh : ℕ
  pub index : ℕ

unfoldable pub backup_name_beq : BackupName → BackupName → Bool
backup_name_beq a b = a.calc_bh == b.calc_bh && a.index == b.index

pub backup_name_beq_iff : (a b : BackupName) → (backup_name_beq a b ≡ true) ↔ (a ≡ b)
unfolding backup_name_beq
backup_name_beq_iff a b = ground arith

instance abbrev pub backup_name_eq : Eq BackupName
backup_name_eq = record { beq = backup_name_beq; beq_iff = backup_name_beq_iff }

-- The byte behind the prefix of a 21-byte address, and its store.
unfoldable pub get_account_db_index : ℕ → ℕ → ℕ
get_account_db_index db_count address = address / 2 ^ 152 % 256 % db_count

module _ {A : Type 0} where
  -- A write out of bounds changes nothing.
  abbrev pub set_elem : List A → ℕ → A → List A
  set_elem [] i v = []
  set_elem (x ∷ xs) zero v = v ∷ xs
  set_elem (x ∷ xs) (suc i) v = x ∷ set_elem xs i v

-- `A` is a store of accounts.
pub record Accounts (A : Type 0) : Type 0 where
  pub idb : IScoreDb
  pub account0 : List A
  pub account1 : List A
  pub backups : List (BackupName × A)

module _ {A : Type 0} where
  unfoldable pub get_query_db_list : Accounts A → List A
  get_query_db_list s = if s.idb.info.query_db_is_zero then s.account0 else s.account1

  unfoldable pub get_calc_db_list : Accounts A → List A
  get_calc_db_list s = if s.idb.info.query_db_is_zero then s.account1 else s.account0

  unfoldable pub set_calc_db_list : Accounts A → List A → Accounts A
  set_calc_db_list s dbs =
      if s.idb.info.query_db_is_zero
      then record s { account1 = dbs }
      else record s { account0 = dbs }

  unfoldable pub toggle : Accounts A → ℕ → Accounts A
  unfolding toggle_account_db
  toggle s block_height = record s { idb = toggle_account_db s.idb block_height }

  module _ (empty : A) where
    -- The loop over the old query DBs from index `i`: a store that has a backup already is opened
    -- again, any other becomes the backup and an empty one is opened.
    unfoldable pub back_up : ℕ → ℕ → List A → List (BackupName × A) → List A × List (BackupName × A)
    back_up block_height i [] backups = ([], backups)
    back_up block_height i (db ∷ dbs) backups =
        let name : BackupName = record { calc_bh = block_height; index = i + 1 } in
        elim (lookup name backups) [
          | none ↦
              let (opened, backups') = back_up block_height (i + 1) dbs (insert name db backups) in
              (empty ∷ opened, backups')
          | some _ ↦
              let (opened, backups') = back_up block_height (i + 1) dbs backups in
              (db ∷ opened, backups')
        ]

    unfoldable pub reset_account_db : Accounts A → ℕ → ℕ → Accounts A
    unfolding get_calc_db_list set_calc_db_list back_up
    reset_account_db s block_height old_calc_bh =
        let kept = within (λ k. not (k.calc_bh == old_calc_bh)) s.backups in
        let (opened, backups) = back_up block_height 0 (get_calc_db_list s) kept in
        set_calc_db_list (record s { backups = backups }) opened

  -- Each backup takes the place of the store of its index.
  unfoldable pub put_backups : List (BackupName × A) → List A → List A
  put_backups [] dbs = dbs
  put_backups ((name, db) ∷ rest) dbs = put_backups rest (set_elem dbs (name.index - 1) db)

  -- The calculation result of the height is deleted too, by its own store.
  unfoldable pub rollback_account_db : Accounts A → ℕ → Accounts A
  unfolding get_calc_db_list set_calc_db_list put_backups toggle rollback_account_db_block_info
  rollback_account_db s block_height =
      let renamed = record (set_calc_db_list s (put_backups s.backups (get_calc_db_list s))) {
        backups = [];
      } in
      let toggled = toggle renamed block_height in
      record toggled { idb = rollback_account_db_block_info toggled.idb }
