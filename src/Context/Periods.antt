-- ===== src/Context/Periods.antt =====
-- What UpdateGovernanceVariable, UpdatePRep, RollbackManagementDB and getGVByBlockHeight of
-- core/context.go do alike to a list of items that hold from a block height on, in memory and in
-- a bucket of the management DB whose keys are the heights.
pub mod Pruning
pub mod Blocks
use rewardcalculator.Base.{
  ℕ, nat_eq, ◌-◌, ◌≤◌, ◌<◌, Bool, true, false, Option, none, some, List, [], ◌∷◌, ltb, leb,
  if◌then◌else◌, DistinctKeys,
}
use rewardcalculator.Db.Engine.{Engine}

module _ {A : Type 0} (height : A → ℕ) where
  -- The last item below a height, looked for from the end.
  unfoldable pub get_by_block_height : ℕ → List A → Option A
  get_by_block_height block_height [] = none
  get_by_block_height block_height (a ∷ l) = elim (get_by_block_height block_height l) [
    | some b ↦ some b
    | none ↦ if ltb (height a) block_height then some a else none
  ]

  -- All heights of a list are above a height.
  abbrev pub IsAbove : ℕ → List A → Type 0
  IsAbove k [] = Unit
  IsAbove k (a ∷ l) = (k < height a) × IsAbove k l

  -- The heights rise strictly.
  abbrev pub IsAscending : List A → Type 0
  IsAscending [] = Unit
  IsAscending (a ∷ l) = IsAbove (height a) l × IsAscending l

  abbrev pub next_start : ℕ → List A → ℕ
  next_start end [] = end
  next_start end (b ∷ rest) = if ltb (height b) end then height b else end

  -- The blocks of [start, end) for which an item holds: from its own height on, up to that of the
  -- next item, as the loops of the calculation have it. `none` where there are none.
  unfoldable pub period_of : ℕ → ℕ → A → List A → Option (ℕ × ℕ)
  period_of start end a rest =
      let s = if ltb start (height a) then height a else start in
      let e = next_start end rest in if leb e s then none else some (s, e)

  -- The last item's height, if there is one.
  abbrev pub last_height : List A → Option ℕ
  last_height [] = none
  last_height (a ∷ []) = some (height a)
  last_height (a ∷ b ∷ l) = last_height (b ∷ l)

  -- The memory after the loop of RollbackManagementDB, which truncates from the end.
  unfoldable pub truncate : ℕ → List A → List A
  truncate block_height [] = []
  truncate block_height (a ∷ l) =
      let rest = truncate block_height l in if ltb block_height (height a) then [] else a ∷ rest

  module _ (G : Engine ℕ A) where
    -- The keys that the loop of RollbackManagementDB deletes, from the end.
    unfoldable pub delete_above : ℕ → List A → G.Table → G.Table
    delete_above block_height [] db = db
    delete_above block_height (a ∷ l) db =
        let db' = delete_above block_height l db in
        if ltb block_height (height a) then G.delete db' (height a) else db'

    -- "delete old value": from the end, the first item at or below `prev` stays with all behind
    -- it, and each such item before it is deleted from the DB. The flag is `deleteOld`.
    pub record Pruned : Type 0 where
      pub memory : List A
      pub delete_old : Bool
      pub db : G.Table

    unfoldable pub prune : ℕ → List A → G.Table → Pruned
    prune prev [] db = record { memory = []; delete_old = false; db = db }
    prune prev (a ∷ l) db =
        let rest = prune prev l db in
        if rest.delete_old
        then (if leb (height a) prev
            then record rest { db = G.delete rest.db (height a) }
            else rest)
        else record rest { memory = a ∷ rest.memory; delete_old = leb (height a) prev }
