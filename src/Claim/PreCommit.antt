-- ===== src/Claim/PreCommit.antt =====
-- PreCommit and its store: newPreCommit, query, write, delete, commit, revert, flushPreCommit,
-- initPreCommit, findPreCommit of core/db_claim.go.
pub mod Entries
use rewardcalculator.Base.{
  ℕ, ◌+◌, Bool, true, false, Option, none, some, ◌==◌, leb, ◌&&◌, if◌then◌else◌,
}
use rewardcalculator.Base.Int.{ℤ}
use rewardcalculator.Base.Words.{wrap64}
use rewardcalculator.Db.Engine.{Engine}
use rewardcalculator.Db.Bulk.{delete_range}
use rewardcalculator.Claim.Types.{
  PreCommitData, PreCommit, PreCommitKey, pre_commit_key_eq, copied, nil_claim,
}

unfoldable pub gen_pre_commit_key : ℕ → ℕ → ℕ → PreCommitKey
gen_pre_commit_key address block_height block_hash = record {
  height = block_height;
  hash = block_hash;
  address = address;
}

unfoldable pub id : PreCommit → PreCommitKey
unfolding gen_pre_commit_key
id pc = gen_pre_commit_key pc.claim.address pc.block_height pc.block_hash

unfoldable pub new_pre_commit : ℕ → Option ℕ → ℕ → Option ℕ → ℕ → PreCommit
new_pre_commit block_height block_hash tx_index tx_hash address = record {
  block_height = block_height;
  block_hash = copied block_hash;
  body = record {
    confirmed = false;
    tx_index = tx_index;
    tx_hash = copied tx_hash;
    claim = record { address = address; claim_data = nil_claim };
  };
}

-- The keys that the range of MakeIteratorPrefix holds: those of a height, and of a hash where
-- one is given.
unfoldable pub prefix : ℕ → Option ℕ → PreCommitKey → Bool
prefix block_height none k = k.height == block_height
prefix block_height (some h) k = k.height == block_height && k.hash == h

pub data CommitError : Type 0 where
  no_data : CommitError

module _ (P : Engine PreCommitKey PreCommitData) where
  open P use {Table, get, set, delete as delete_key}

  -- The stored body takes the place of the one in memory.
  unfoldable pub query : Table → PreCommit → PreCommit × Bool
  unfolding id
  query db pc = elim (get db (id pc)) [
    | none ↦ (pc, false)
    | some body ↦ (record pc { body = body }, true)
  ]

  unfoldable pub write : Table → PreCommit → Option ℤ → Table
  unfolding id
  write db pc none = set db (id pc) pc.body
  write db pc (some i_score) =
      let body = record pc.body {
        claim = record pc.claim {
          claim_data = record { block_height = pc.block_height; i_score = i_score };
        };
      } in
      set db (id pc) body

  unfoldable pub delete : Table → PreCommit → Table
  unfolding id
  delete db pc = delete_key db (id pc)

  -- An error leaves the store alone.
  unfoldable pub commit : Table → PreCommit → Table × Option CommitError
  unfolding query write
  commit db pc =
      let (stored, found) = query db pc in
      if found
      then if pc.tx_index == stored.tx_index
        then if stored.confirmed then (db, none) else (
          write db (record stored { body = record stored.body { confirmed = true } }) none,
          none,
        )
        else (db, none)
      else (db, some no_data)

  unfoldable pub revert : Table → PreCommit → Table × Option CommitError
  unfolding query delete
  revert db pc =
      let (stored, found) = query db pc in
      if found
      then if pc.tx_index == stored.tx_index
        then if stored.confirmed then (db, none) else (delete db stored, none)
        else (db, none)
      else (db, some no_data)

  unfoldable pub flush_pre_commit : Table → ℕ → Option ℕ → Table
  unfolding prefix
  flush_pre_commit db block_height block_hash = delete_range P (prefix block_height block_hash) db

  unfoldable pub init_pre_commit : Table → ℕ → Table
  init_pre_commit db block_height =
      delete_range P (λ k. leb (wrap64 (block_height + 1)) k.height) db

  unfoldable pub find_pre_commit : Table → ℕ → ℕ → ℕ → Option PreCommit
  unfolding gen_pre_commit_key
  find_pre_commit db address block_height block_hash =
      elim (get db (gen_pre_commit_key address block_height block_hash)) [
        | none ↦ none
        | some body ↦ some (record {
          block_height = block_height;
          block_hash = block_hash;
          body = record body { claim = record body.claim { address = address } };
        })
      ]
