-- ===== src/Context/Accounts/Undo.antt =====
-- A calculation and the rollback of the account DBs after it (core/context.go).
use mathlib.Core.List.{append_assoc, append-nil}
use rewardcalculator.Base.{
  ℕ, zero, suc, ◌+◌, ◌-◌, ◌≤◌, ◌≡◌, ◌≢◌, refl, sym, ap, ◌∙◌, none, List, [], ◌∷◌, ◌++◌, arith, ◌==◌,
  not, lookup, insert, within, length, length-append, Entries,
}
use rewardcalculator.Context.Info.{set_calc_done_bh}
use rewardcalculator.Context.Accounts.{
  BackupName, backup_name_eq, backup_name_beq_iff, set_elem, Accounts, get_query_db_list,
  set_calc_db_list, toggle, back_up, reset_account_db, put_backups, rollback_account_db,
}

module _ {A : Type 0} where
  -- The backups of one calculation, from an index on.
  abbrev named : ℕ → ℕ → List A → List (BackupName × A)
  named block_height i [] = []
  named block_height i (db ∷ dbs) =
      (record { calc_bh = block_height; index = i + 1 }, db) ∷ named block_height (i + 1) dbs

  abbrev pub UpTo : ℕ → BackupName → A → Type 0
  UpTo i k db = k.index ≤ i

  pub lookup-UpTo :
      (block_height i : ℕ) (m : List (BackupName × A))
      → Entries (UpTo i) m
      → lookup (record { calc_bh = block_height; index = i + 1 }) m ≡ none
  lookup-UpTo block_height i [] h = refl
  lookup-UpTo block_height i ((k, db) ∷ m) h = ground (
    arith,
    lookup-UpTo block_height i m h.1,
    backup_name_beq_iff k (record { calc_bh = block_height; index = i + 1 }),
  )

  pub insert-UpTo :
      (block_height i : ℕ) (db : A) (m : List (BackupName × A))
      → Entries (UpTo i) m
      → insert (record { calc_bh = block_height; index = i + 1 }) db m
        ≡ m ++ (record { calc_bh = block_height; index = i + 1 }, db) ∷ []
  insert-UpTo block_height i db [] h = refl
  insert-UpTo block_height i db ((k, d) ∷ m) h = ground (
    arith,
    insert-UpTo block_height i db m h.1,
    backup_name_beq_iff k (record { calc_bh = block_height; index = i + 1 }),
  )

  pub UpTo-append :
      (block_height i : ℕ) (db : A) (m : List (BackupName × A))
      → Entries (UpTo i) m
      → Entries (UpTo (i + 1)) (m ++ (record { calc_bh = block_height; index = i + 1 }, db) ∷ [])
  UpTo-append block_height i db [] h = (omega arith, tt)
  UpTo-append block_height i db ((k, d) ∷ m) h = (omega arith, UpTo-append block_height i db m h.1)

  -- With no backup in the way, every store becomes a backup and an empty one is opened for it.
  back_up-fresh :
      (empty : A) (block_height i : ℕ) (dbs : List A) (m : List (BackupName × A))
      → Entries (UpTo i) m
      → ((back_up empty block_height i dbs m).1 ≡ m ++ named block_height i dbs)
        × (length (back_up empty block_height i dbs m).0 ≡ length dbs)
  unfolding back_up
  back_up-fresh empty block_height i [] m h = (sym (append-nil m), refl)
  back_up-fresh empty block_height i (db ∷ dbs) m h =
      let name : BackupName = record { calc_bh = block_height; index = i + 1 } in
      let rest =
        back_up-fresh empty block_height (i + 1) dbs (m ++ (name, db) ∷ [])
          (UpTo-append block_height i db m h) in
      rw (lookup-UpTo block_height i m h, back_up)
        (rw (insert-UpTo block_height i db m h) (
          rest.0 ∙ append_assoc m ((name, db) ∷ []) (named block_height (i + 1) dbs),
          ap suc rest.1,
        ))

  set_elem-append :
      (pre : List A) (x db : A) (xs : List A) (i : ℕ)
      → length pre ≡ i
      → set_elem (pre ++ x ∷ xs) i db ≡ pre ++ db ∷ xs
  set_elem-append [] x db xs zero e = refl
  set_elem-append [] x db xs (suc i) e = absurd (omega arith)
  set_elem-append (p ∷ pre) x db xs zero e = absurd (omega arith)
  set_elem-append (p ∷ pre) x db xs (suc i) e =
      ap (λ l. p ∷ l) (set_elem-append pre x db xs i (omega arith))

  put_backups-named :
      (block_height : ℕ) (dbs pre xs : List A) (i : ℕ)
      → length pre ≡ i
      → length xs ≡ length dbs
      → put_backups (named block_height i dbs) (pre ++ xs) ≡ pre ++ dbs
  unfolding put_backups
  put_backups-named block_height [] pre [] i e same = refl
  put_backups-named block_height [] pre (x ∷ xs) i e same = absurd (omega arith)
  put_backups-named block_height (db ∷ dbs) pre [] i e same = absurd (omega arith)
  put_backups-named block_height (db ∷ dbs) pre (x ∷ xs) i e same =
      ap (put_backups (named block_height (i + 1) dbs)) (
        set_elem-append pre x db xs (i + 1 - 1) (omega arith) ∙ sym (append_assoc pre (db ∷ []) xs))
      ∙ put_backups-named block_height dbs (pre ++ db ∷ []) xs (i + 1)
          (omega (arith, length-append pre (db ∷ []))) (omega arith)
      ∙ append_assoc pre (db ∷ []) dbs

  abbrev pub Of : ℕ → BackupName → A → Type 0
  Of calc_bh k db = k.calc_bh ≡ calc_bh

  pub without-Of :
      (calc_bh : ℕ) (m : List (BackupName × A))
      → Entries (Of calc_bh) m
      → within (λ k. not (k.calc_bh == calc_bh)) m ≡ []
  without-Of calc_bh [] h = refl
  without-Of calc_bh ((k, db) ∷ m) h = ground (arith, without-Of calc_bh m h.1)

  -- An accepted calculation of a height up to its end: the sets change places, the old query DBs
  -- become backups, the calculation fills the new ones with `results`, and the height is set.
  abbrev pub calculate : A → Accounts A → ℕ → List A → Accounts A
  calculate empty s block_height results =
      let opened =
        reset_account_db empty (toggle s (block_height + 1)) block_height s.idb.info.calc_done in
      let filled = set_calc_db_list opened results in
      record filled { idb = set_calc_done_bh filled.idb block_height }

  -- A calculation of a block height toggles at the height after it, where the last toggle was at
  -- another one and all backups are of the calculation before it. If it is rolled back to a height
  -- that is not that of its toggle, then whatever it wrote into its DBs, as many as the query DBs,
  -- the query DBs are the ones from before it, no backup is left, and the last calculation is the
  -- one before.
  pub rollback_undoes_calculation :
      (empty : A) (s : Accounts A) (block_height to : ℕ) (results : List A)
      → Entries (Of s.idb.info.calc_done) s.backups
      → s.idb.info.toggle_bh ≢ block_height + 1
      → to ≢ block_height + 1
      → length results ≡ length (get_query_db_list s)
      → let r = rollback_account_db (calculate empty s block_height results) to in
        (get_query_db_list r ≡ get_query_db_list s)
        × (r.backups ≡ [])
        × (r.idb.info.calc_done ≡ s.idb.info.calc_done)
  unfolding get_query_db_list reset_account_db rollback_account_db set_calc_done_bh toggle
  rollback_undoes_calculation empty s block_height to results of not_yet other same =
      let q = get_query_db_list s in
      ground (
        arith,
        without-Of s.idb.info.calc_done s.backups of,
        (back_up-fresh empty block_height 0 q [] tt).0,
        put_backups-named block_height q [] results 0 refl same,
      )
