-- ===== src/Db/MapDb.antt =====
-- common/db/map_db.go: a bucket over a Go map, here a list of keys with values. It fills the
-- interface; its own GetIterator returns nil, so the iteration is the one that the interface asks
-- for, in the order of the list.
use rewardcalculator.Base.{
  Bool, Option, List, [], Eq, lookup, insert, erase, within, DistinctKeys, lookup-insert,
  lookup-erase, lookup-within, insert-DistinctKeys, erase-DistinctKeys, within-DistinctKeys,
}
use rewardcalculator.Db.Engine.{Engine}

-- mapBucket, whose `real` is a Go map: no key stands twice.
pub record MapBucket (K : Type 0) (V : Type 0) ⦃e : Eq K⦄ : Type 0 where
  pub real : List (K × V)
  pub distinct : DistinctKeys real

module _ {K V : Type 0} ⦃e : Eq K⦄ where
  abbrev pub get : MapBucket K V → K → Option V
  get t k = lookup k t.real

  abbrev pub set : MapBucket K V → K → V → MapBucket K V
  set t k v = record {
    real = insert k v t.real;
    distinct = insert-DistinctKeys k v t.real t.distinct;
  }

  abbrev pub delete : MapBucket K V → K → MapBucket K V
  delete t k = record { real = erase k t.real; distinct = erase-DistinctKeys k t.real t.distinct }

  abbrev pub iterate : MapBucket K V → (K → Bool) → List (K × V)
  iterate t p = within p t.real

module _ (K V : Type 0) ⦃e : Eq K⦄ where
  abbrev pub empty : MapBucket K V
  empty = record { real = []; distinct = tt }

  abbrev pub engine : Engine K V
  engine = record {
    Table = MapBucket K V;
    get = get;
    set = set;
    delete = delete;
    iterate = iterate;
    get-set = λ t k v j. lookup-insert k v t.real j;
    get-delete = λ t k j. lookup-erase k t.real j;
    lookup-iterate = λ t p k. lookup-within p t.real k;
    iterate-DistinctKeys = λ t p. within-DistinctKeys p t.real t.distinct;
  }
