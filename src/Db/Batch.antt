-- ===== src/Db/Batch.antt =====
-- The interface of a batch over a bucket (common/db/batch.go): writes that are kept until Write.
use rewardcalculator.Base.{◌≡◌, refl, some, List, [], ◌∷◌, if◌then◌else◌, Eq, ◌=?◌}
use rewardcalculator.Db.Engine.{Engine}

-- `new` is also what Reset leaves. A write of the batch does not fail.
pub record Batches {K V : Type 0} ⦃e : Eq K⦄ (E : Engine K V) : Type 1 where
  pub Batch : Type 0
  pub new : Batch
  pub set : Batch → K → V → Batch
  pub write : Batch → E.Table → E.Table
  pub get-new : (t : E.Table) (j : K) → E.get (write new t) j ≡ E.get t j
  pub get-set :
      (b : Batch) (k : K) (v : V) (t : E.Table) (j : K)
      → E.get (write (set b k v) t) j ≡ (if k =? j then some v else E.get (write b t) j)

module _ {K V : Type 0} ⦃e : Eq K⦄ (E : Engine K V) where
  -- The latest write in front.
  pending : List (K × V) → E.Table → E.Table
  pending [] t = t
  pending ((k, v) ∷ b) t = E.set (pending b t) k v

  -- A batch that lists its writes.
  abbrev pub listed : Batches E
  unfolding pending
  listed = record {
    Batch = List (K × V);
    new = [];
    set = λ b k v. (k, v) ∷ b;
    write = pending;
    get-new = λ t j. refl;
    get-set = λ b k v t j. E.get-set (pending b t) k v j;
  }
