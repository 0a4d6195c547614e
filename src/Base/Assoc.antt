-- ===== src/Base/Assoc.antt =====
-- Lists of keys with values: what an iterator yields, and a Go map in some order.
use mathlib.Core.Path.{◌≡◌, refl}
use mathlib.Core.Bool.{Bool}
use mathlib.Core.List.{List, [], ◌∷◌, ◌++◌}
use mathlib.Core.Option.{Option, none, some}
use native.Mathlib.Omega.{arith}
use rewardcalculator.Base.Tests.{Eq, ◌=?◌, if◌then◌else◌}

module _ {ℓ κ} {K : Type ℓ} {V : Type κ} ⦃e : Eq K⦄ where
  abbrev pub lookup : K → List (K × V) → Option V
  lookup k [] = none
  lookup k ((j, v) ∷ m) = if j =? k then some v else lookup k m

  -- A write keeps the place of a key that is there.
  abbrev pub insert : K → V → List (K × V) → List (K × V)
  insert k v [] = (k, v) ∷ []
  insert k v ((j, w) ∷ m) = if j =? k then (k, v) ∷ m else (j, w) ∷ insert k v m

  abbrev pub erase : K → List (K × V) → List (K × V)
  erase k [] = []
  erase k ((j, w) ∷ m) = let rest = erase k m in if j =? k then rest else (j, w) ∷ rest

  -- No key stands twice.
  abbrev pub DistinctKeys : List (K × V) → Type κ
  DistinctKeys [] = Unit
  DistinctKeys ((k, v) ∷ m) = (lookup k m ≡ none) × DistinctKeys m

  -- The entries whose key passes a test.
  abbrev pub within : (K → Bool) → List (K × V) → List (K × V)
  within p [] = []
  within p ((k, v) ∷ m) = let rest = within p m in if p k then (k, v) ∷ rest else rest

  pub lookup-insert :
      (k : K) (v : V) (m : List (K × V)) (j : K)
      → lookup j (insert k v m) ≡ (if k =? j then some v else lookup j m)
  lookup-insert k v [] j = refl
  lookup-insert k v ((i, w) ∷ m) j =
      ground (arith, lookup-insert k v m j, e.beq_iff k j, e.beq_iff i k, e.beq_iff i j)

  pub lookup-erase :
      (k : K) (m : List (K × V)) (j : K)
      → lookup j (erase k m) ≡ (if k =? j then none else lookup j m)
  lookup-erase k [] j = ground arith
  lookup-erase k ((i, w) ∷ m) j =
      ground (arith, lookup-erase k m j, e.beq_iff k j, e.beq_iff i k, e.beq_iff i j)

  pub insert-DistinctKeys :
      (k : K) (v : V) (m : List (K × V)) → DistinctKeys m → DistinctKeys (insert k v m)
  insert-DistinctKeys k v [] h = (refl, tt)
  insert-DistinctKeys k v ((i, w) ∷ m) h =
      ground
        (arith, insert-DistinctKeys k v m h.1, lookup-insert k v m i, e.beq_iff i k, e.beq_iff k i)

  pub erase-DistinctKeys : (k : K) (m : List (K × V)) → DistinctKeys m → DistinctKeys (erase k m)
  erase-DistinctKeys k [] h = h
  erase-DistinctKeys k ((i, w) ∷ m) h =
      ground (arith, erase-DistinctKeys k m h.1, lookup-erase k m i, e.beq_iff i k, e.beq_iff k i)

  pub lookup-within :
      (p : K → Bool) (m : List (K × V)) (k : K)
      → lookup k (within p m) ≡ (if p k then lookup k m else none)
  lookup-within p [] k = ground arith
  lookup-within p ((j, v) ∷ m) k = ground (arith, lookup-within p m k, e.beq_iff j k)

  pub within-DistinctKeys :
      (p : K → Bool) (m : List (K × V)) → DistinctKeys m → DistinctKeys (within p m)
  within-DistinctKeys p [] h = h
  within-DistinctKeys p ((j, v) ∷ m) h =
      ground (arith, within-DistinctKeys p m h.1, lookup-within p m j)

  -- What holds of every entry that is found holds of every entry.
  abbrev pub Entries {μ} : (K → V → Type μ) → List (K × V) → Type μ
  Entries P [] = Unit
  Entries P ((k, v) ∷ m) = P k v × Entries P m

  pub Entries-of_lookup {μ} :
      (P : K → V → Type μ) (m : List (K × V))
      → DistinctKeys m
      → ((k : K) (v : V) → lookup k m ≡ some v → P k v)
      → Entries P m
  Entries-of_lookup P [] d h = tt
  Entries-of_lookup P ((k, v) ∷ m) d h = (
    h k v (ground (arith, e.beq_iff k k)),
    Entries-of_lookup P m d.1 (λ j w found. h j w (ground (arith, found, d.0, e.beq_iff k j))),
  )

  pub lookup-append :
      (l m : List (K × V)) (k : K)
      → lookup k (l ++ m) ≡ elim (lookup k l) [ none ↦ lookup k m | some v ↦ some v ]
  lookup-append [] m k = refl
  lookup-append ((j, v) ∷ l) m k = ground (arith, lookup-append l m k)
