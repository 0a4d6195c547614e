-- ===== src/Db/Bulk.antt =====
-- The loop `for _, key := range keys { bucket.Delete(key) }` after an iteration has gathered the
-- keys, as deletePreCommit, garbageCollectClaimBackupDB and _rollbackClaimDB of core/db_claim.go
-- have it.
use rewardcalculator.Base.{
  ◌≡◌, refl, Bool, none, some, List, [], ◌∷◌, arith, if◌then◌else◌, Eq, lookup,
}
use rewardcalculator.Db.Engine.{Engine}

module _ {K V : Type 0} ⦃e : Eq K⦄ (E : Engine K V) where
  open E use {Table, get, delete, iterate, get-delete, lookup-iterate}

  unfoldable pub delete_keys : List (K × V) → Table → Table
  delete_keys [] t = t
  delete_keys ((k, v) ∷ l) t = delete_keys l (delete t k)

  -- Gathers the keys in a range, then deletes them.
  unfoldable pub delete_range : (K → Bool) → Table → Table
  delete_range p t = delete_keys (iterate t p) t

  pub get-delete_keys :
      (l : List (K × V)) (t : Table) (j : K)
      → get (delete_keys l t) j ≡ elim (lookup j l) [ none ↦ get t j | some _ ↦ none ]
  unfolding delete_keys
  get-delete_keys [] t j = refl
  get-delete_keys ((k, v) ∷ l) t j =
      ground (arith, get-delete_keys l (delete t k) j, get-delete t k j)

  pub get-delete_range :
      (p : K → Bool) (t : Table) (j : K)
      → get (delete_range p t) j ≡ (if p j then none else get t j)
  unfolding delete_range
  get-delete_range p t j = ground (arith, get-delete_keys (iterate t p) t j, lookup-iterate t p j)
