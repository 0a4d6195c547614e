-- ===== src/Db/Ordered/Sorted.antt =====
-- An engine whose iterator sorts the entries of a map bucket, over a strict order of the keys.
use rewardcalculator.Base.{
  ◌≡◌, refl, ◌∙◌, arith, Bool, true, false, none, some, List, [], ◌∷◌, if◌then◌else◌, Eq, ◌=?◌,
  lookup, within, DistinctKeys, lookup-insert, lookup-erase, lookup-within, within-DistinctKeys,
  Bool-cases, inl, inr,
}
use rewardcalculator.Db.Engine.{Engine}
use rewardcalculator.Db.MapDb.{MapBucket, get, set, delete, iterate}
use rewardcalculator.Db.Ordered.{IsFirst, IsSorted, Ordered}

module _ {K V : Type 0} ⦃e : Eq K⦄ (before : K → K → Bool)
    (trans : (a b c : K) → before a b ≡ true → before b c ≡ true → before a c ≡ true)
    (connex : (a b : K) → (a =? b) ≡ false → before a b ≡ false → before b a ≡ true) where
  -- Insertion of an entry in front of the first one that it is before.
  unfoldable pub place : K → V → List (K × V) → List (K × V)
  place k v [] = (k, v) ∷ []
  place k v ((j, w) ∷ m) =
      let rest = place k v m in if before k j then (k, v) ∷ (j, w) ∷ m else (j, w) ∷ rest

  unfoldable pub sort : List (K × V) → List (K × V)
  unfolding place
  sort [] = []
  sort ((k, v) ∷ m) = place k v (sort m)

  lookup-place :
      (k : K) (v : V) (m : List (K × V)) (j : K)
      → lookup k m ≡ none
      → lookup j (place k v m) ≡ (if k =? j then some v else lookup j m)
  unfolding place
  lookup-place k v [] j h = refl
  lookup-place k v ((i, w) ∷ m) j h =
      ground (arith, lookup-place k v m j, h, e.beq_iff k j, e.beq_iff i k, e.beq_iff i j)

  pub lookup-sort : (m : List (K × V)) (j : K) → DistinctKeys m → lookup j (sort m) ≡ lookup j m
  unfolding sort
  lookup-sort [] j d = refl
  lookup-sort ((k, v) ∷ m) j d =
      lookup-place k v (sort m) j (lookup-sort m k d.1 ∙ d.0) ∙ rw (lookup-sort m j d.1) refl

  place-DistinctKeys :
      (k : K) (v : V) (m : List (K × V))
      → lookup k m ≡ none
      → DistinctKeys m
      → DistinctKeys (place k v m)
  unfolding place
  place-DistinctKeys k v [] h d = (refl, tt)
  place-DistinctKeys k v ((i, w) ∷ m) h d =
      ground
        (arith, place-DistinctKeys k v m, lookup-place k v m i, h, d, e.beq_iff i k, e.beq_iff k i)

  pub sort-DistinctKeys : (m : List (K × V)) → DistinctKeys m → DistinctKeys (sort m)
  unfolding sort
  sort-DistinctKeys [] d = tt
  sort-DistinctKeys ((k, v) ∷ m) d =
      place-DistinctKeys k v (sort m) (lookup-sort m k d.1 ∙ d.0) (sort-DistinctKeys m d.1)

  IsFirst-trans :
      (k j : K) (m : List (K × V)) → before k j ≡ true → IsFirst before j m → IsFirst before k m
  IsFirst-trans k j [] h f = tt
  IsFirst-trans k j ((i, w) ∷ m) h f = (trans k j i h f.0, IsFirst-trans k j m h f.1)

  IsFirst-place :
      (j k : K) (v : V) (m : List (K × V))
      → before j k ≡ true
      → IsFirst before j m
      → IsFirst before j (place k v m)
  unfolding place
  IsFirst-place j k v [] h f = (h, tt)
  IsFirst-place j k v ((i, w) ∷ m) h f = ground (arith, IsFirst-place j k v m h f.1, h, f)

  place-IsSorted :
      (k : K) (v : V) (m : List (K × V))
      → lookup k m ≡ none
      → IsSorted before m
      → IsSorted before (place k v m)
  unfolding place
  place-IsSorted k v [] h s = (tt, tt)
  place-IsSorted k v ((i, w) ∷ m) h s =
      let other : (i =? k) ≡ false = ground (arith, h) in
      let absent : lookup k m ≡ none = ground (arith, h) in
      elim (Bool-cases (before k i)) [
        | inl below ↦ rw below ((below, IsFirst-trans k i m below s.0), s)
        | inr above ↦
            let swapped : (k =? i) ≡ false = ground (arith, other, e.beq_iff i k, e.beq_iff k i) in
            rw above (
              IsFirst-place i k v m (connex k i swapped above) s.0,
              place-IsSorted k v m absent s.1,
            )
      ]

  pub sort-IsSorted : (m : List (K × V)) → DistinctKeys m → IsSorted before (sort m)
  unfolding sort
  sort-IsSorted [] d = tt
  sort-IsSorted ((k, v) ∷ m) d =
      place-IsSorted k v (sort m) (lookup-sort m k d.1 ∙ d.0) (sort-IsSorted m d.1)

  abbrev pub engine : Engine K V
  engine = record {
    Table = MapBucket K V;
    get = get;
    set = set;
    delete = delete;
    iterate = λ t p. sort (iterate t p);
    get-set = λ t k v j. lookup-insert k v t.real j;
    get-delete = λ t k j. lookup-erase k t.real j;
    lookup-iterate = λ t p k.
        lookup-sort (within p t.real) k (within-DistinctKeys p t.real t.distinct)
        ∙ lookup-within p t.real k;
    iterate-DistinctKeys =
        λ t p. sort-DistinctKeys (within p t.real) (within-DistinctKeys p t.real t.distinct);
  }

  abbrev pub is_ordered : Ordered before engine
  is_ordered = record {
    iterate-IsSorted =
        λ t p. sort-IsSorted (within p t.real) (within-DistinctKeys p t.real t.distinct);
  }
