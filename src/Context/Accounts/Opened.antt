-- ===== src/Context/Accounts/Opened.antt =====
-- The account DBs at the start of a calculation (core/context.go).
use rewardcalculator.Base.{
  ℕ, ◌+◌, ◌≡◌, ◌≢◌, refl, ap, ◌∙◌, List, [], ◌∷◌, ◌++◌, arith, ◌==◌, not, within, Bool-cases, inl,
  inr, Entries,
}
use rewardcalculator.Context.Accounts.{
  BackupName, backup_name_eq, Accounts, get_query_db_list, get_calc_db_list, set_calc_db_list,
  toggle, back_up, reset_account_db,
}
use rewardcalculator.Context.Accounts.Undo.{
  UpTo, Of, lookup-UpTo, insert-UpTo, UpTo-append, without-Of,
}

module _ {A : Type 0} where
  -- An empty store for every one of a list.
  unfoldable pub empties : A → List A → List A
  empties empty [] = []
  empties empty (db ∷ dbs) = empty ∷ empties empty dbs

  back_up-opened :
      (empty : A) (block_height i : ℕ) (dbs : List A) (m : List (BackupName × A))
      → Entries (UpTo i) m
      → (back_up empty block_height i dbs m).0 ≡ empties empty dbs
  unfolding back_up empties
  back_up-opened empty block_height i [] m h = refl
  back_up-opened empty block_height i (db ∷ dbs) m h =
      let name : BackupName = record { calc_bh = block_height; index = i + 1 } in
      rw (lookup-UpTo block_height i m h, back_up)
        (rw (insert-UpTo block_height i db m h) (
          ap (λ l. empty ∷ l)
            (back_up-opened empty block_height (i + 1) dbs (m ++ (name, db) ∷ [])
              (UpTo-append block_height i db m h))))

  pub get_calc_db_list-set :
      (s : Accounts A) (l : List A) → get_calc_db_list (set_calc_db_list s l) ≡ l
  unfolding get_calc_db_list set_calc_db_list
  get_calc_db_list-set s l = elim (Bool-cases s.idb.info.query_db_is_zero) [
    | inl first ↦ rw first refl
    | inr second ↦ rw second refl
  ]

  pub get_query_db_list-set :
      (s : Accounts A) (l : List A) → get_query_db_list (set_calc_db_list s l) ≡ get_query_db_list s
  unfolding get_query_db_list set_calc_db_list
  get_query_db_list-set s l = elim (Bool-cases s.idb.info.query_db_is_zero) [
    | inl first ↦ rw first refl
    | inr second ↦ rw second refl
  ]

  -- The sets change places at the toggle.
  toggle-lists :
      (s : Accounts A) (block_height : ℕ)
      → s.idb.info.toggle_bh ≢ block_height
      → (get_query_db_list (toggle s block_height) ≡ get_calc_db_list s)
        × (get_calc_db_list (toggle s block_height) ≡ get_query_db_list s)
  unfolding get_query_db_list get_calc_db_list toggle
  toggle-lists s block_height other = ground (arith, other)

  -- Where the last toggle was at another height and all backups are of the last calculation, the
  -- DBs that the last calculation wrote are the query DBs, and the calculate DBs are empty.
  pub reset_account_db-opened :
      (empty : A) (s : Accounts A) (block_height toggle_at : ℕ)
      → Entries (Of s.idb.info.calc_done) s.backups
      → s.idb.info.toggle_bh ≢ toggle_at
      → let r = reset_account_db empty (toggle s toggle_at) block_height s.idb.info.calc_done in
        (get_query_db_list r ≡ get_calc_db_list s)
        × (get_calc_db_list r ≡ empties empty (get_query_db_list s))
  unfolding reset_account_db toggle get_query_db_list
  reset_account_db-opened empty s block_height toggle_at of other =
      let lists = toggle-lists s toggle_at other in
      let toggled = toggle s toggle_at in
      let opened =
        back_up empty block_height 0 (get_calc_db_list toggled)
          (within (λ k. not (k.calc_bh == s.idb.info.calc_done)) s.backups) in
      (
        get_query_db_list-set (record toggled { backups = opened.1 }) opened.0 ∙ lists.0,
        get_calc_db_list-set (record toggled { backups = opened.1 }) opened.0
            ∙ rw (without-Of s.idb.info.calc_done s.backups of) (
                back_up-opened empty block_height 0 (get_calc_db_list toggled) [] tt
                ∙ ap (empties empty) lists.1),
      )
