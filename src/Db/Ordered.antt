-- ===== src/Db/Ordered.antt =====
-- The order of an iterator: goleveldb promises that the entries come in the order of their keys.
pub mod Sorted
pub mod Unique
use rewardcalculator.Base.{◌≡◌, Bool, true, List, [], ◌∷◌, Eq}
use rewardcalculator.Db.Engine.{Engine}

module _ {K V : Type 0} (before : K → K → Bool) where
  -- Every key is before all keys behind it.
  abbrev pub IsFirst : K → List (K × V) → Type 0
  IsFirst k [] = Unit
  IsFirst k ((j, w) ∷ m) = (before k j ≡ true) × IsFirst k m

  abbrev pub IsSorted : List (K × V) → Type 0
  IsSorted [] = Unit
  IsSorted ((k, v) ∷ m) = IsFirst k m × IsSorted m

pub record Ordered {K V : Type 0} ⦃e : Eq K⦄ (before : K → K → Bool) (E : Engine K V) : Type 0 where
  pub iterate-IsSorted : (t : E.Table) (p : K → Bool) → IsSorted before (E.iterate t p)
