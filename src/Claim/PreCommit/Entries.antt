-- ===== src/Claim/PreCommit/Entries.antt =====
-- What the operations on a pre-commit leave under each key of the store.
use rewardcalculator.Base.{
  ℕ, ◌+◌, ◌≡◌, true, Option, none, some, ◌==◌, arith, if◌then◌else◌, ◌=?◌, Option-cases, inl, inr,
  leb,
}
use rewardcalculator.Base.Int.{ℤ}
use rewardcalculator.Base.Words.{wrap64}
use rewardcalculator.Db.Engine.{Engine}
use rewardcalculator.Db.Bulk.{get-delete_range}
use rewardcalculator.Claim.Types.{
  PreCommitData, PreCommit, PreCommitKey, pre_commit_key_eq, pre_commit_key_beq_iff,
}
use rewardcalculator.Claim.PreCommit.{
  id, prefix, write, commit, revert, flush_pre_commit, init_pre_commit,
}

-- The stored body of the same transaction becomes confirmed.
abbrev pub confirm : ℕ → Option PreCommitData → Option PreCommitData
confirm tx_index none = none
confirm tx_index (some b) =
    some (if tx_index == b.tx_index then record b { confirmed = true } else b)

-- The stored body of the same transaction goes, unless it is confirmed.
abbrev pub cancel : ℕ → Option PreCommitData → Option PreCommitData
cancel tx_index none = none
cancel tx_index (some b) =
    if tx_index == b.tx_index then (if b.confirmed then some b else none) else some b

module _ (P : Engine PreCommitKey PreCommitData) where
  open P use {Table, get, get-set, get-delete}

  -- A body holds the address of its key.
  pub record IsKeyed (db : Table) : Type 0 where
    pub at_key :
        (k : PreCommitKey) (b : PreCommitData) → get db k ≡ some b → b.claim.address ≡ k.address

  -- Where pre-commits are under the keys of their addresses, COMMIT of a pre-commit confirms the
  -- stored one of the same key and transaction index, and leaves every other entry alone.
  pub get-commit :
      (db : Table) (pc : PreCommit) (j : PreCommitKey)
      → IsKeyed db
      → get (commit P db pc).0 j ≡ (if id pc =? j then confirm pc.tx_index (get db j) else get db j)
  unfolding commit
  get-commit db pc j keyed = elim (Option-cases (get db (id pc))) [
    | inl missing ↦ ground (arith, missing, pre_commit_key_beq_iff (id pc) j)
    | inr (b, found) ↦ ground (
      arith,
      found,
      keyed.at_key (id pc) b found,
      pre_commit_key_beq_iff (id pc) j,
      get-set db (id pc) (record b { confirmed = true }) j,
    )
  ]

  -- Where pre-commits are under the keys of their addresses, a revert deletes the stored pre-commit
  -- of the same key and transaction index unless it is confirmed, and leaves every other entry
  -- alone.
  pub get-revert :
      (db : Table) (pc : PreCommit) (j : PreCommitKey)
      → IsKeyed db
      → get (revert P db pc).0 j ≡ (if id pc =? j then cancel pc.tx_index (get db j) else get db j)
  unfolding revert
  get-revert db pc j keyed = elim (Option-cases (get db (id pc))) [
    | inl missing ↦ ground (arith, missing, pre_commit_key_beq_iff (id pc) j)
    | inr (b, found) ↦ ground (
      arith,
      found,
      keyed.at_key (id pc) b found,
      pre_commit_key_beq_iff (id pc) j,
      get-delete db (id pc) j,
    )
  ]

  -- A flush deletes the keys of its prefix and no other.
  pub get-flush_pre_commit :
      (db : Table) (block_height : ℕ) (block_hash : Option ℕ) (j : PreCommitKey)
      → get (flush_pre_commit P db block_height block_hash) j
        ≡ (if prefix block_height block_hash j then none else get db j)
  unfolding flush_pre_commit
  get-flush_pre_commit db block_height block_hash j =
      get-delete_range P (prefix block_height block_hash) db j

  pub get-init_pre_commit :
      (db : Table) (block_height : ℕ) (j : PreCommitKey)
      → get (init_pre_commit P db block_height) j
        ≡ (if leb (wrap64 (block_height + 1)) j.height then none else get db j)
  unfolding init_pre_commit
  get-init_pre_commit db block_height j = get-delete_range P _ db j

  -- The operations keep every body under the address of its key.
  write-IsKeyed :
      (db : Table) (pc : PreCommit) (i_score : Option ℤ)
      → IsKeyed db
      → IsKeyed (write P db pc i_score)
  unfolding write
  write-IsKeyed db pc none keyed = record {
    at_key = λ k b e.
        ground
          (arith, get-set db (id pc) pc.body k, pre_commit_key_beq_iff (id pc) k, keyed.at_key k b);
  }
  write-IsKeyed db pc (some i_score) keyed = record {
    at_key = λ k b e. ground (
      arith,
      get-set db (id pc)
          (record pc.body {
            claim = record pc.claim {
              claim_data = record { block_height = pc.block_height; i_score = i_score };
            };
          })
          k,
      pre_commit_key_beq_iff (id pc) k,
      keyed.at_key k b,
    );
  }

  pub commit-IsKeyed : (db : Table) (pc : PreCommit) → IsKeyed db → IsKeyed (commit P db pc).0
  commit-IsKeyed db pc keyed = record {
    at_key = λ k b e. grind (arith, get-commit db pc k keyed, keyed.at_key k);
  }

  pub revert-IsKeyed : (db : Table) (pc : PreCommit) → IsKeyed db → IsKeyed (revert P db pc).0
  revert-IsKeyed db pc keyed = record {
    at_key = λ k b e. grind (arith, get-revert db pc k keyed, keyed.at_key k);
  }

  pub flush_pre_commit-IsKeyed :
      (db : Table) (block_height : ℕ) (block_hash : Option ℕ)
      → IsKeyed db
      → IsKeyed (flush_pre_commit P db block_height block_hash)
  flush_pre_commit-IsKeyed db block_height block_hash keyed = record {
    at_key = λ k b e.
        ground (arith, get-flush_pre_commit db block_height block_hash k, keyed.at_key k b);
  }
