-- ===== src/Db/Load/Reload.antt =====
-- A list that a bucket was written from, read back.
use rewardcalculator.Base.{
  ℕ, nat_eq, ◌<◌, ◌≡◌, refl, ap, ◌∙◌, arith, Option, some, List, [], ◌∷◌, ltb, lookup, All, Entries,
}
use rewardcalculator.Base.Words.{modulus}
use rewardcalculator.Base.Bytes.{Bytes, bytes_eq, before}
use rewardcalculator.Db.Engine.{Engine}
use rewardcalculator.Db.Ordered.{IsFirst, IsSorted, Ordered}
use rewardcalculator.Db.Ordered.Unique.{sorted_unique}
use rewardcalculator.Db.Load.{load_bucket}
use rewardcalculator.Db.Load.Numbered.{IsBucket, view, item, items, load_bucket-Loaded}
use rewardcalculator.Context.Periods.{IsAbove, IsAscending}

module _ {D A : Type 0} (height : A → ℕ) (datum : A → D) where
  -- The entries that a list is written to.
  unfoldable pub entries_of : List A → List (ℕ × D)
  entries_of [] = []
  entries_of (a ∷ l) = (height a, datum a) ∷ entries_of l

  entries_of-IsFirst : (k : ℕ) (l : List A) → IsAbove height k l → IsFirst ltb k (entries_of l)
  unfolding entries_of
  entries_of-IsFirst k [] h = tt
  entries_of-IsFirst k (a ∷ l) h = (ground (arith, h.0), entries_of-IsFirst k l h.1)

  entries_of-IsSorted : (l : List A) → IsAscending height l → IsSorted ltb (entries_of l)
  unfolding entries_of
  entries_of-IsSorted [] up = tt
  entries_of-IsSorted (a ∷ l) up =
      (entries_of-IsFirst (height a) l up.0, entries_of-IsSorted l up.1)

  entries_of-bounded :
      (l : List A) → All (λ a. height a < modulus) l → Entries (λ n d. n < modulus) (entries_of l)
  unfolding entries_of
  entries_of-bounded [] h = tt
  entries_of-bounded (a ∷ l) h = (h.0, entries_of-bounded l h.1)

module _ {D A : Type 0} (decode : Bytes → Option D) (prefix : Bytes) (make : ℕ → D → A)
    (height : A → ℕ) (datum : A → D) where
  items-entries_of :
      (l : List A)
      → All (λ a. make (height a) (datum a) ≡ a) l
      → items decode prefix make (entries_of height datum l) ≡ l
  unfolding entries_of
  items-entries_of [] h = refl
  items-entries_of (a ∷ l) h = rw (h.0, items-entries_of l h.1) refl

  module _ (G : Engine Bytes Bytes) where
    -- A list whose heights rise, of items that are made from what is stored of them.
    pub load_bucket-entries_of :
        (t : G.Table) (l : List A)
        → Ordered before G
        → IsBucket decode prefix make G t
        → IsAscending height l
        → All (λ a. height a < modulus) l
        → All (λ a. make (height a) (datum a) ≡ a) l
        → ((n : ℕ)
            → n < modulus
            → view decode prefix make G t n ≡ lookup n (entries_of height datum l))
        → load_bucket G prefix (item decode prefix make) t ≡ some l
    load_bucket-entries_of t l ordered is up fits made stored =
        let loaded = load_bucket-Loaded decode prefix make G t ordered is in
        let same =
          sorted_unique modulus loaded.contents (entries_of height datum l) loaded.in_order
            (entries_of-IsSorted height datum l up) loaded.bounded
            (entries_of-bounded height datum l fits) (λ n h. loaded.complete n h ∙ stored n h) in
        loaded.is
        ∙ ap (λ m. some (items decode prefix make m)) same
        ∙ ap some (items-entries_of l made)
