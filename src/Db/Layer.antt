-- ===== src/Db/Layer.antt =====
-- common/db/layer_db.go: a layer that keeps the writes to a bucket until they are flushed to it or
-- dropped. The map of a layerBucket is a list of keys; an entry `none` stands for a deleted key, the
-- nil slice of the code.
mod Tests
pub mod Transaction
use rewardcalculator.Base.{
  ◌≡◌, Bool, true, false, Option, none, some, List, [], ◌∷◌, Eq, lookup, insert, DistinctKeys,
  if◌then◌else◌,
}
use rewardcalculator.Db.Engine.{Engine}

module _ {K V : Type 0} ⦃e : Eq K⦄ (E : Engine K V) where
  -- `cached` is the field `data`; it is `none` once the layer is flushed.
  pub record LayerBucket : Type 0 where
    pub cached : Option (List (K × Option V))
    pub real : E.Table

  unfoldable pub read : Option (Option V) → Option V → Option V
  read none below = below
  read (some value) below = value

  unfoldable pub get : LayerBucket → K → Option V
  unfolding read
  get bk key = elim bk.cached as (λ _. Option V) [
    | none ↦ E.get bk.real key
    | some m ↦ read (lookup key m) (E.get bk.real key)
  ]

  is_some : Option V → Bool
  is_some none = false
  is_some (some v) = true

  unfoldable pub has : LayerBucket → K → Bool
  unfolding get is_some
  has bk key = is_some (get bk key)

  -- `false` where the value is nil, which is refused.
  unfoldable pub set : LayerBucket → K → Option V → LayerBucket × Bool
  set bk key none = (bk, false)
  set bk key (some value) = elim bk.cached as (λ _. LayerBucket × Bool) [
    | none ↦ (record bk { real = E.set bk.real key value }, true)
    | some m ↦ (record bk { cached = some (insert key (some value) m) }, true)
  ]

  unfoldable pub delete : LayerBucket → K → LayerBucket
  delete bk key = elim bk.cached as (λ _. LayerBucket) [
    | none ↦ record bk { real = E.delete bk.real key }
    | some m ↦ record bk { cached = some (insert key none m) }
  ]

  -- The loop over the map, in any order of it.
  unfoldable pub write_data : List (K × Option V) → E.Table → E.Table
  write_data [] real = real
  write_data ((k, none) ∷ rest) real = write_data rest (E.delete real k)
  write_data ((k, some v) ∷ rest) real = write_data rest (E.set real k v)

  -- The real bucket after Flush.
  flushed : Bool → Option (List (K × Option V)) → E.Table → E.Table
  unfolding write_data
  flushed true (some m) real = write_data m real
  flushed write cached real = real

  unfoldable pub flush : Bool → LayerBucket → LayerBucket
  unfolding flushed
  flush write bk = record { cached = none; real = flushed write bk.cached bk.real }
