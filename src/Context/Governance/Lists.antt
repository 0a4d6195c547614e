-- ===== src/Context/Governance/Lists.antt =====
-- The governance variables over their updates and rollbacks, in memory and in the management DB
-- (UpdateGovernanceVariable and RollbackManagementDB of core/context.go).
use rewardcalculator.Base.{
  ℕ, nat_eq, ◌+◌, ◌≤◌, ◌<◌, ◌≡◌, refl, Bool, true, false, none, some, List, [], ◌∷◌, ◌++◌, arith,
  if◌then◌else◌, ◌==◌,
}
use rewardcalculator.Db.Engine.{Engine}
use rewardcalculator.Context.Periods.{IsAbove, IsAscending, last_height, truncate, prune}
use rewardcalculator.Context.Periods.Pruning.{
  find, find-truncate, IsStored, prune-IsStored, truncate-IsStored, get_by_block_height-truncate,
}
use rewardcalculator.Context.Governance.{
  IissGovernanceVariable, GovernanceVariable, set_reward, new_gv_from_iiss, gv_height, rises,
  get_gv_by_block_height, GvStore, PRep, PRepStore, rollback_management_db, add_gvs,
  update_governance_variable,
}

module _ {A : Type 0} (height : A → ℕ) where
  -- An item above the last one goes behind an ascending list.
  IsAbove-append :
      (k : ℕ) (l : List A) (a : A)
      → IsAbove height k l
      → k < height a
      → IsAbove height k (l ++ a ∷ [])
  IsAbove-append k [] a h lt = (lt, tt)
  IsAbove-append k (b ∷ l) a h lt = (h.0, IsAbove-append k l a h.1 lt)

  first_rises :
      (b : A) (l : List A) (k : ℕ)
      → IsAscending height (b ∷ l)
      → rises (last_height height (b ∷ l)) k ≡ true
      → height b < k
  first_rises b [] k up h = ground arith
  first_rises b (c ∷ l) k up h = ground (arith, first_rises c l k up.1 h, up.0.0)

  tail_rises :
      (b : A) (l : List A) (k : ℕ)
      → rises (last_height height (b ∷ l)) k ≡ true
      → rises (last_height height l) k ≡ true
  tail_rises b [] k h = refl
  tail_rises b (c ∷ l) k h = h

  append-IsAscending :
      (l : List A) (a : A)
      → IsAscending height l
      → rises (last_height height l) (height a) ≡ true
      → IsAscending height (l ++ a ∷ [])
  append-IsAscending [] a up h = (tt, tt)
  append-IsAscending (b ∷ l) a up h = (
    IsAbove-append (height b) l a up.0 (first_rises b l (height a) up h),
    append-IsAscending l a up.1 (tail_rises b l (height a) h),
  )

  module _ (G : Engine ℕ A) where
    find-append :
        (k : ℕ) (l : List A) (a : A)
        → IsAscending height l
        → rises (last_height height l) (height a) ≡ true
        → find height G k (l ++ a ∷ []) ≡ (if height a == k then some a else find height G k l)
    find-append k [] a up h = refl
    find-append k (b ∷ l) a up h = ground (
      arith,
      find-append k l a up.1 (tail_rises b l (height a) h),
      first_rises b l (height a) up h,
    )

    set-IsStored :
        (l : List A) (db : G.Table) (a : A)
        → IsAscending height l
        → rises (last_height height l) (height a) ≡ true
        → IsStored height G l db
        → IsStored height G (l ++ a ∷ []) (G.set db (height a) a)
    set-IsStored l db a up h stored k =
        rw (G.get-set db (height a) a k, find-append k l a up h, stored k)

    prune-IsAbove :
        (k prev : ℕ) (l : List A) (db : G.Table)
        → IsAbove height k l
        → IsAbove height k (prune height G prev l db).memory
    unfolding prune
    prune-IsAbove k prev [] db h = tt
    prune-IsAbove k prev (a ∷ l) db h = ground (arith, prune-IsAbove k prev l db h.1)

    prune-IsAscending :
        (prev : ℕ) (l : List A) (db : G.Table)
        → IsAscending height l
        → IsAscending height (prune height G prev l db).memory
    unfolding prune
    prune-IsAscending prev [] db up = tt
    prune-IsAscending prev (a ∷ l) db up =
        ground (arith, prune-IsAscending prev l db up.1, prune-IsAbove (height a) prev l db up.0)

  truncate-IsAbove :
      (k to : ℕ) (l : List A) → IsAbove height k l → IsAbove height k (truncate height to l)
  unfolding truncate
  truncate-IsAbove k to [] h = tt
  truncate-IsAbove k to (a ∷ l) h = ground (arith, truncate-IsAbove k to l h.1)

  truncate-IsAscending :
      (to : ℕ) (l : List A) → IsAscending height l → IsAscending height (truncate height to l)
  unfolding truncate
  truncate-IsAscending to [] up = tt
  truncate-IsAscending to (a ∷ l) up =
      ground (arith, truncate-IsAscending to l up.1, truncate-IsAbove (height a) to l up.0)

module _ (G : Engine ℕ GovernanceVariable) where
  -- The variables are in order of their block heights, and the management DB holds those of the
  -- memory and no others.
  unfoldable pub IsSound : GvStore G → Type 0
  IsSound (gvs, db) = IsAscending gv_height gvs × IsStored gv_height G gvs db

  add_gv-IsSound :
      (gvs : List GovernanceVariable) (db : G.Table) (gv : GovernanceVariable) (ok : Bool)
      → rises (last_height gv_height gvs) gv.block_height ≡ ok
      → IsSound (gvs, db)
      → IsSound (if ok then (gvs ++ gv ∷ [], G.set db gv.block_height gv) else (gvs, db))
  unfolding IsSound
  add_gv-IsSound gvs db gv true h sound = (
    append-IsAscending gv_height gvs gv sound.0 h,
    set-IsStored gv_height G gvs db gv sound.0 h sound.1,
  )
  add_gv-IsSound gvs db gv false h sound = sound

  add_gvs-IsSound :
      (l : List IissGovernanceVariable) (s : GvStore G) → IsSound s → IsSound (add_gvs G l s)
  unfolding add_gvs IsSound new_gv_from_iiss set_reward
  add_gvs-IsSound [] s h = h
  add_gvs-IsSound (iiss ∷ rest) (gvs, db) h =
      add_gvs-IsSound rest _ (add_gv-IsSound gvs db (new_gv_from_iiss iiss) _ refl h)

  -- If the governance variables are in order and the management DB holds them and no other, that is
  -- so after UpdateGovernanceVariable too, whatever the IISS data holds.
  pub update_governance_variable-IsSound :
      (prev_calc_done : ℕ) (gv_list : List IissGovernanceVariable) (s : GvStore G)
      → IsSound s
      → IsSound (update_governance_variable G prev_calc_done gv_list s)
  unfolding update_governance_variable IsSound
  update_governance_variable-IsSound prev gv_list s h =
      let added = add_gvs-IsSound gv_list s h in
      (
        prune-IsAscending gv_height G prev (add_gvs G gv_list s).0 (add_gvs G gv_list s).1 added.0,
        prune-IsStored gv_height G prev (add_gvs G gv_list s).0 (add_gvs G gv_list s).1 added.0
            added.1,
      )

module _ (G : Engine ℕ GovernanceVariable) (R : Engine ℕ PRep) where
  -- If the governance variables are in order and the management DB holds them and no other, that is
  -- so after RollbackManagementDB too, which leaves none above the block height in the DB and
  -- changes nothing for a lookup of a block up to the one after it.
  pub rollback_management_db-IsSound :
      (to : ℕ) (s : GvStore G) (preps : PRepStore R)
      → IsSound G s
      → (k block_height : ℕ) → to < k
      → block_height ≤ to + 1
      → let s' = (rollback_management_db G R to (s, preps)).0 in
        IsSound G s'
        × (G.get s'.1 k ≡ none)
        × (get_gv_by_block_height block_height s'.0 ≡ get_gv_by_block_height block_height s.0)
  unfolding rollback_management_db IsSound get_gv_by_block_height
  rollback_management_db-IsSound to (gvs, db) preps h k block_height lt le = (
    (truncate-IsAscending gv_height to gvs h.0, truncate-IsStored gv_height G to gvs db h.0 h.1),
    ground (
      arith,
      truncate-IsStored gv_height G to gvs db h.0 h.1 k,
      find-truncate gv_height G to k gvs h.0,
    ),
    get_by_block_height-truncate gv_height G to block_height gvs h.0 le,
  )
