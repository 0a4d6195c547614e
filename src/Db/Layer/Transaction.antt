-- ===== src/Db/Layer/Transaction.antt =====
-- What a layer over a bucket shows, and what Flush makes of the bucket.
use rewardcalculator.Base.{
  ◌≡◌, refl, ◌∙◌, arith, true, false, Option, none, some, List, [], ◌∷◌, Eq, lookup, insert,
  DistinctKeys, lookup-insert, insert-DistinctKeys,
}
use rewardcalculator.Db.Engine.{Engine}
use rewardcalculator.Db.Layer.{LayerBucket, get, set, delete, read, write_data, flush}

module _ {K V : Type 0} ⦃e : Eq K⦄ (E : Engine K V) where
  pub data Write : Type 0 where
    put : K → V → Write
    remove : K → Write

  -- Writes to the layer, and the same writes to the real bucket.
  unfoldable pub to_layer : List Write → LayerBucket E → LayerBucket E
  to_layer [] bk = bk
  to_layer (put k v ∷ rest) bk = to_layer rest (set E bk k (some v)).0
  to_layer (remove k ∷ rest) bk = to_layer rest (delete E bk k)

  unfoldable pub to_real : List Write → E.Table → E.Table
  to_real [] t = t
  to_real (put k v ∷ rest) t = to_real rest (E.set t k v)
  to_real (remove k ∷ rest) t = to_real rest (E.delete t k)

  -- A new layer.
  abbrev pub layer : E.Table → LayerBucket E
  layer t = record { cached = some []; real = t }

  get-write_data :
      (m : List (K × Option V)) (t : E.Table) (j : K)
      → DistinctKeys m
      → E.get (write_data E m t) j ≡ read E (lookup j m) (E.get t j)
  unfolding write_data read
  get-write_data [] t j d = refl
  get-write_data ((k, none) ∷ m) t j d =
      rw (get-write_data m (E.delete t k) j d.1, E.get-delete t k j)
        (ground (arith, d.0, e.beq_iff k j))
  get-write_data ((k, some v) ∷ m) t j d =
      rw (get-write_data m (E.set t k v) j d.1, E.get-set t k v j)
        (ground (arith, d.0, e.beq_iff k j))

  -- The entries of a layer after some writes.
  cache : List Write → List (K × Option V) → List (K × Option V)
  cache [] m = m
  cache (put k v ∷ rest) m = cache rest (insert k (some v) m)
  cache (remove k ∷ rest) m = cache rest (insert k none m)

  cache-DistinctKeys :
      (l : List Write) (m : List (K × Option V)) → DistinctKeys m → DistinctKeys (cache l m)
  unfolding cache
  cache-DistinctKeys [] m d = d
  cache-DistinctKeys (put k v ∷ rest) m d =
      cache-DistinctKeys rest (insert k (some v) m) (insert-DistinctKeys k (some v) m d)
  cache-DistinctKeys (remove k ∷ rest) m d =
      cache-DistinctKeys rest (insert k none m) (insert-DistinctKeys k none m d)

  to_layer-cache :
      (l : List Write) (m : List (K × Option V)) (t : E.Table)
      → to_layer l (record { cached = some m; real = t })
        ≡ record { cached = some (cache l m); real = t }
  unfolding to_layer set delete cache
  to_layer-cache [] m t = refl
  to_layer-cache (put k v ∷ rest) m t = to_layer-cache rest (insert k (some v) m) t
  to_layer-cache (remove k ∷ rest) m t = to_layer-cache rest (insert k none m) t

  -- The entries over the real bucket show what the writes make of another bucket.
  Shows : List (K × Option V) → E.Table → E.Table → Type 0
  Shows m t u = (j : K) → read E (lookup j m) (E.get t j) ≡ E.get u j

  cache-Shows :
      (l : List Write) (m : List (K × Option V)) (t u : E.Table)
      → Shows m t u
      → Shows (cache l m) t (to_real l u)
  unfolding Shows cache to_real read
  cache-Shows [] m t u h = h
  cache-Shows (put k v ∷ rest) m t u h =
      cache-Shows rest (insert k (some v) m) t (E.set u k v)
        (λ j. rw (lookup-insert k (some v) m j, E.get-set u k v j) (ground (arith, h j)))
  cache-Shows (remove k ∷ rest) m t u h =
      cache-Shows rest (insert k none m) t (E.delete u k)
        (λ j. rw (lookup-insert k none m j, E.get-delete u k j) (ground (arith, h j)))

  -- Through a new layer on a bucket any list of writes and deletions shows under every key as if it
  -- was made to the bucket, which is left as it was. A Flush that writes makes the bucket show the
  -- same under every key, one that does not leaves it as it was.
  pub layer_is_transaction :
      (l : List Write) (t : E.Table) (j : K)
      → let bk = to_layer l (layer t) in
        (get E bk j ≡ E.get (to_real l t) j)
        × (bk.real ≡ t)
        × (E.get (flush E true bk).real j ≡ E.get (to_real l t) j)
        × ((flush E false bk).real ≡ t)
  unfolding Shows get flush read
  layer_is_transaction l t j =
      let shown = cache-Shows l [] t t (λ i. refl) j in
      rw (to_layer-cache l [] t)
        (shown, refl, get-write_data (cache l []) t j (cache-DistinctKeys l [] tt) ∙ shown, refl)
