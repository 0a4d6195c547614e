-- ===== src/Db/Engine.antt =====
-- The interface of a bucket with an iterator (common/db/bucket.go, database.go).
use rewardcalculator.Base.{
  ◌≡◌, Bool, Option, none, some, List, if◌then◌else◌, Eq, ◌=?◌, lookup, DistinctKeys,
}

-- The operations do not fail: an I/O error of the engine is outside the model. `iterate t p` is
-- what the iterator yields over the range of keys that `p` selects.
pub record Engine (K : Type 0) (V : Type 0) ⦃e : Eq K⦄ : Type 1 where
  pub Table : Type 0
  pub get : Table → K → Option V
  pub set : Table → K → V → Table
  pub delete : Table → K → Table
  pub iterate : Table → (K → Bool) → List (K × V)
  pub get-set :
      (t : Table) (k : K) (v : V) (j : K) → get (set t k v) j ≡ (if k =? j then some v else get t j)
  pub get-delete : (t : Table) (k j : K) → get (delete t k) j ≡ (if k =? j then none else get t j)
  pub lookup-iterate :
      (t : Table) (p : K → Bool) (k : K) → lookup k (iterate t p) ≡ (if p k then get t k else none)
  pub iterate-DistinctKeys : (t : Table) (p : K → Bool) → DistinctKeys (iterate t p)
