-- ===== src/Db/Load.antt =====
-- The loops that read a bucket with its iterator: loadIISSGovernanceVariable (core/db_iissdata.go),
-- LoadGovernanceVariable, LoadPRep and LoadPRepCandidate (core/db_management.go). Here the keys and
-- the values of the engine are bytes.
pub mod Numbered
pub mod Reload
use rewardcalculator.Base.{◌≡◌, ◌≢◌, refl, Option, none, some, List, [], ◌∷◌}
use rewardcalculator.Base.Bytes.{Bytes, bytes_eq, has_prefix}
use rewardcalculator.Db.Engine.{Engine}

module _ {A : Type 0} where
  none-some : {l : List A} → none ≢ some l
  none-some h = cc

  abbrev pub and_then : Option A → Option (List A) → Option (List A)
  and_then (some a) (some l) = some (a ∷ l)
  and_then a l = none

  -- One item for each entry; an item that fails ends the loop.
  unfoldable pub load_all : (Bytes → Bytes → Option A) → List (Bytes × Bytes) → Option (List A)
  load_all item [] = some []
  load_all item ((key, value) ∷ rest) = and_then (item key value) (load_all item rest)

  abbrev pub and_maybe : Option A → List A → List A
  and_maybe none l = l
  and_maybe (some a) l = a ∷ l

  -- The loops that go on after an item that fails (core/msg_calculate.go, core/context.go).
  unfoldable pub load_each : (Bytes → Bytes → Option A) → List (Bytes × Bytes) → List A
  load_each item [] = []
  load_each item ((key, value) ∷ rest) = and_maybe (item key value) (load_each item rest)

  -- util.BytesPrefix of goleveldb: the range of the keys with a prefix.
  unfoldable pub load_bucket :
      (G : Engine Bytes Bytes) → Bytes → (Bytes → Bytes → Option A) → G.Table → Option (List A)
  unfolding load_all
  load_bucket G prefix item t = load_all item (G.iterate t (has_prefix prefix))

  all_from_each :
      (o : Option A) (all : Option (List A)) (each l : List A)
      → ((l' : List A) → all ≡ some l' → each ≡ l')
      → and_then o all ≡ some l
      → and_maybe o each ≡ l
  all_from_each none all each l h e = absurd (none-some e)
  all_from_each (some a) none each l h e = absurd (none-some e)
  all_from_each (some a) (some l') each l h e = (let rest = h l' refl in cc)

  -- Where no item fails, both read the same.
  pub load_each-load_all :
      (item : Bytes → Bytes → Option A) (m : List (Bytes × Bytes)) (l : List A)
      → load_all item m ≡ some l
      → load_each item m ≡ l
  unfolding load_all load_each
  load_each-load_all item [] l h = cc
  load_each-load_all item ((key, value) ∷ m) l h =
      all_from_each (item key value) (load_all item m) (load_each item m) l
        (λ l' h'. load_each-load_all item m l' h') h
