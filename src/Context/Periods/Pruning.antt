-- ===== src/Context/Periods/Pruning.antt =====
-- Pruning and truncation against what a block looks up and what the DB holds.
use rewardcalculator.Base.{
  ℕ, nat_eq, ◌+◌, ◌≤◌, ◌<◌, ◌≡◌, ◌≢◌, refl, Bool, true, false, Option, none, some, List, [], ◌∷◌,
  ltb, arith, if◌then◌else◌, ◌==◌, ◌&&◌, not, Bool-cases, Option-cases, inl, inr,
}
use rewardcalculator.Db.Engine.{Engine}
use rewardcalculator.Context.Periods.{
  get_by_block_height, IsAbove, IsAscending, truncate, delete_above, prune,
}

module _ {A : Type 0} (height : A → ℕ) (G : Engine ℕ A) where
  -- The item of a height in memory.
  abbrev pub find : ℕ → List A → Option A
  find k [] = none
  find k (a ∷ l) = if height a == k then some a else find k l

  -- The DB holds what is in memory.
  abbrev pub IsStored : List A → G.Table → Type 0
  IsStored l db = (k : ℕ) → G.get db k ≡ find k l

  prune-found :
      (prev block_height : ℕ) (l : List A) (db : G.Table)
      → prev < block_height
      → (prune height G prev l db).delete_old ≡ true
      → get_by_block_height height block_height l ≢ none
  unfolding prune get_by_block_height
  prune-found prev block_height [] db h e = cc
  prune-found prev block_height (a ∷ l) db h e =
      ground (arith, prune-found prev block_height l db h)

  -- Pruning at a height changes nothing for a lookup of a block above it.
  get_by_block_height-prune :
      (prev block_height : ℕ) (l : List A) (db : G.Table)
      → prev < block_height
      → get_by_block_height height block_height (prune height G prev l db).memory
        ≡ get_by_block_height height block_height l
  unfolding prune get_by_block_height
  get_by_block_height-prune prev block_height [] db h = refl
  get_by_block_height-prune prev block_height (a ∷ l) db h = ground (
    arith,
    get_by_block_height-prune prev block_height l db h,
    prune-found prev block_height l db h,
  )

  find-IsAbove : (k j : ℕ) (l : List A) → IsAbove height k l → j ≤ k → find j l ≡ none
  find-IsAbove k j [] h le = refl
  find-IsAbove k j (a ∷ l) h le = ground (arith, find-IsAbove k j l h.1 le)

  get_by_block_height-IsAbove :
      (k j : ℕ) (l : List A)
      → IsAbove height k l
      → j ≤ k + 1
      → get_by_block_height height j l ≡ none
  unfolding get_by_block_height
  get_by_block_height-IsAbove k j [] h le = refl
  get_by_block_height-IsAbove k j (a ∷ l) h le =
      ground (arith, get_by_block_height-IsAbove k j l h.1 le)

  abbrev is_some : Option A → Bool
  is_some none = false
  is_some (some a) = true

  find-prune :
      (prev k : ℕ) (l : List A) (db : G.Table) (a : A)
      → IsAscending height l
      → find k (prune height G prev l db).memory ≡ some a
      → find k l ≡ some a
  unfolding prune
  find-prune prev k [] db a up e = e
  find-prune prev k (b ∷ l) db a up e =
      ground (arith, find-prune prev k l db a up.1, find-IsAbove (height b) k l up.0)

  below_prev :
      (prev k : ℕ) (l : List A) (db : G.Table)
      → IsAbove height k l
      → (prune height G prev l db).delete_old ≡ true
      → k < prev
  unfolding prune
  below_prev prev k [] db above e = cc
  below_prev prev k (a ∷ l) db above e = ground (arith, below_prev prev k l db above.1)

  prune-untouched :
      (prev : ℕ) (l : List A) (db : G.Table)
      → (prune height G prev l db).delete_old ≡ false
      → ((prune height G prev l db).memory ≡ l) × ((prune height G prev l db).db ≡ db)
  unfolding prune
  prune-untouched prev [] db e = (refl, refl)
  prune-untouched prev (a ∷ l) db e = ground (arith, prune-untouched prev l db)

  dropped :
      (prev k : ℕ) (l : List A) (db : G.Table)
      → IsAscending height l
      → find k l ≡ none
      → find k (prune height G prev l db).memory ≡ none
  dropped prev k l db up e = elim (Option-cases (find k (prune height G prev l db).memory)) [
    | inl gone ↦ gone
    | inr (a, there) ↦ cc (find-prune prev k l db a up there)
  ]

  get-prune :
      (prev k : ℕ) (l : List A) (db : G.Table)
      → IsAscending height l
      → G.get (prune height G prev l db).db k ≡ (
          if is_some (find k l) && not (is_some (find k (prune height G prev l db).memory))
          then none
          else G.get db k)
  unfolding prune
  get-prune prev k [] db up = refl
  get-prune prev k (a ∷ l) db up = elim (Bool-cases (prune height G prev l db).delete_old) [
    | inl found ↦ ground (
      arith,
      found,
      below_prev prev (height a) l db up.0 found,
      get-prune prev k l db up.1,
      G.get-delete (prune height G prev l db).db (height a) k,
      find-IsAbove (height a) k l up.0,
      dropped prev k l db up.1,
    )
    | inr fresh ↦ ground (arith, fresh, prune-untouched prev l db fresh)
  ]

  -- Pruning keeps the DB in step with the memory.
  pub prune-IsStored :
      (prev : ℕ) (l : List A) (db : G.Table)
      → IsAscending height l
      → IsStored l db
      → IsStored (prune height G prev l db).memory (prune height G prev l db).db
  prune-IsStored prev l db up stored k =
      elim (Option-cases (find k (prune height G prev l db).memory)) [
        | inl gone ↦ ground (arith, gone, get-prune prev k l db up, stored k)
        | inr (a, there) ↦
            ground
              (arith, there, get-prune prev k l db up, stored k, find-prune prev k l db a up there)
      ]

  get-delete_above :
      (block_height k : ℕ) (l : List A) (db : G.Table)
      → G.get (delete_above height G block_height l db) k
        ≡ (if ltb block_height k && is_some (find k l) then none else G.get db k)
  unfolding delete_above
  get-delete_above block_height k [] db = ground arith
  get-delete_above block_height k (a ∷ l) db = ground (
    arith,
    get-delete_above block_height k l db,
    G.get-delete (delete_above height G block_height l db) (height a) k,
  )

  pub find-truncate :
      (block_height k : ℕ) (l : List A)
      → IsAscending height l
      → find k (truncate height block_height l) ≡ (if ltb block_height k then none else find k l)
  unfolding truncate
  find-truncate block_height k [] up = ground arith
  find-truncate block_height k (a ∷ l) up =
      ground (arith, find-truncate block_height k l up.1, find-IsAbove (height a) k l up.0)

  -- So does the truncation of a rollback.
  pub truncate-IsStored :
      (block_height : ℕ) (l : List A) (db : G.Table)
      → IsAscending height l
      → IsStored l db
      → IsStored (truncate height block_height l) (delete_above height G block_height l db)
  truncate-IsStored block_height l db up stored k =
      ground
        (arith, find-truncate block_height k l up, get-delete_above block_height k l db, stored k)

  -- The truncation changes nothing for the block after the rollback's height and those before.
  pub get_by_block_height-truncate :
      (to block_height : ℕ) (l : List A)
      → IsAscending height l
      → block_height ≤ to + 1
      → get_by_block_height height block_height (truncate height to l)
        ≡ get_by_block_height height block_height l
  unfolding truncate get_by_block_height
  get_by_block_height-truncate to block_height [] up h = refl
  get_by_block_height-truncate to block_height (a ∷ l) up h = ground (
    arith,
    get_by_block_height-truncate to block_height l up.1 h,
    get_by_block_height-IsAbove (height a) block_height l up.0,
  )
