-- ===== src/Claim/Block/Effect.antt =====
-- What a committed block leaves under each address of the claim DB and each key of its backup.
use rewardcalculator.Base.{
  ℕ, nat_eq, ◌≡◌, refl, Bool, true, false, Option, none, some, List, [], ◌∷◌, arith, ◌==◌, ◌&&◌,
  if◌then◌else◌, lookup, DistinctKeys, Entries, Entries-of_lookup, Option-cases, inl, inr,
}
use rewardcalculator.Base.Words.{sub64}
use rewardcalculator.Db.Engine.{Engine}
use rewardcalculator.Claim.Types.{
  ClaimData, PreCommitData, PreCommitKey, BackupKey, pre_commit_key_eq, backup_key_eq,
  pre_commit_key_beq_iff, backup_key_beq_iff,
}
use rewardcalculator.Claim.PreCommit.{gen_pre_commit_key, prefix}
use rewardcalculator.Claim.PreCommit.Entries.{IsKeyed}
use rewardcalculator.Claim.Block.{claimed_with, original, write_one, write_all}

-- The entry of a block for one address.
abbrev pub EntryOf : ℕ → ℕ → PreCommitKey → PreCommitData → Type 0
EntryOf block_height block_hash k pc =
    (k.height ≡ block_height) × (k.hash ≡ block_hash) × (pc.claim.address ≡ k.address)

-- The claim of an address after a block that has this pre-commit for it.
abbrev pub after : Option PreCommitData → Option ClaimData → Option ClaimData
after none old = old
after (some pc) old = elim (claimed_with pc old) [ none ↦ old | some new ↦ some new ]

abbrev pub takes : Option PreCommitData → Option ClaimData → Bool
takes none old = false
takes (some pc) old = elim (claimed_with pc old) [ none ↦ false | some _ ↦ true ]

module _ (C : Engine ℕ ClaimData) (B : Engine BackupKey ClaimData) where
  get-write_one :
      (block_height : ℕ) (pc : PreCommitData) (dbs : C.Table × B.Table) (a : ℕ)
      → C.get (write_one C B block_height pc dbs).0 a
        ≡ (if pc.claim.address == a then after (some pc) (C.get dbs.0 a) else C.get dbs.0 a)
  unfolding write_one
  get-write_one block_height pc (cdb, bdb) a =
      elim (Option-cases (claimed_with pc (C.get cdb pc.claim.address))) [
        | inl skipped ↦ ground (arith, skipped)
        | inr (new, taken) ↦ ground (arith, taken, C.get-set cdb pc.claim.address new a)
      ]

  backup-write_one :
      (block_height : ℕ) (pc : PreCommitData) (dbs : C.Table × B.Table) (k : BackupKey)
      → B.get (write_one C B block_height pc dbs).1 k ≡ (
          if pc.claim.address == k.address
            && k.height == sub64 block_height 1
            && takes (some pc) (C.get dbs.0 k.address)
          then some (original (C.get dbs.0 k.address))
          else B.get dbs.1 k)
  unfolding write_one
  backup-write_one block_height pc (cdb, bdb) k =
      elim (Option-cases (claimed_with pc (C.get cdb pc.claim.address))) [
        | inl skipped ↦ ground (arith, skipped)
        | inr (new, taken) ↦
            let key : BackupKey = record {
              height = sub64 block_height 1;
              address = pc.claim.address;
            } in
            ground (
              arith,
              taken,
              B.get-set bdb key (original (C.get cdb pc.claim.address)) k,
              backup_key_beq_iff key k,
            )
      ]

  module _ (block_height block_hash : ℕ) where
    abbrev key : ℕ → PreCommitKey
    key a = record { height = block_height; hash = block_hash; address = a }

    get-write_all :
        (l : List (PreCommitKey × PreCommitData)) (dbs : C.Table × B.Table) (a : ℕ)
        → DistinctKeys l
        → Entries (EntryOf block_height block_hash) l
        → C.get (write_all C B block_height l dbs).0 a ≡ after (lookup (key a) l) (C.get dbs.0 a)
    unfolding write_all
    get-write_all [] dbs a d h = refl
    get-write_all ((k, pc) ∷ l) dbs a d h = ground (
      arith,
      get-write_all l (write_one C B block_height pc dbs) a d.1 h.1,
      get-write_one block_height pc dbs a,
      pre_commit_key_beq_iff k (key a),
    )

    backup-write_all :
        (l : List (PreCommitKey × PreCommitData)) (dbs : C.Table × B.Table) (k : BackupKey)
        → DistinctKeys l
        → Entries (EntryOf block_height block_hash) l
        → B.get (write_all C B block_height l dbs).1 k ≡ (
            if k.height == sub64 block_height 1
              && takes (lookup (key k.address) l) (C.get dbs.0 k.address)
            then some (original (C.get dbs.0 k.address))
            else B.get dbs.1 k)
    unfolding write_all
    backup-write_all [] dbs k d h = ground arith
    backup-write_all ((j, pc) ∷ l) dbs k d h = ground (
      arith,
      backup-write_all l (write_one C B block_height pc dbs) k d.1 h.1,
      get-write_one block_height pc dbs k.address,
      backup-write_one block_height pc dbs k,
      pre_commit_key_beq_iff j (key k.address),
    )

module _ (P : Engine PreCommitKey PreCommitData) (C : Engine ℕ ClaimData)
    (B : Engine BackupKey ClaimData) (db : P.Table) (keyed : IsKeyed P db)
    (block_height block_hash : ℕ) where
  Entries-of_block :
      Entries
        (EntryOf block_height block_hash)
        (P.iterate db (prefix block_height (some block_hash)))
  unfolding prefix
  Entries-of_block =
      Entries-of_lookup (EntryOf block_height block_hash) _
        (P.iterate-DistinctKeys db (prefix block_height (some block_hash)))
        λ k pc found. ground (
          arith,
          found,
          P.lookup-iterate db (prefix block_height (some block_hash)) k,
          keyed.at_key k pc,
        )

  -- Where pre-commits are under the keys of their addresses, the claim of every address after the
  -- write of a block is what its own pre-commit of the block makes of it.
  pub get-write_block :
      (dbs : C.Table × B.Table) (a : ℕ)
      → C.get
          (write_all C B block_height (P.iterate db (prefix block_height (some block_hash))) dbs).0
          a
        ≡ after (P.get db (gen_pre_commit_key a block_height block_hash)) (C.get dbs.0 a)
  unfolding gen_pre_commit_key prefix
  get-write_block dbs a = ground (
    arith,
    get-write_all C B block_height block_hash _ dbs a
        (P.iterate-DistinctKeys db (prefix block_height (some block_hash))) Entries-of_block,
    P.lookup-iterate db (prefix block_height (some block_hash))
        (gen_pre_commit_key a block_height block_hash),
  )

  -- Where pre-commits are under the keys of their addresses, the write of a block stores the
  -- original of each claim that it changes in the backup, under the height before, and leaves every
  -- other entry of the backup as it was.
  pub backup_after_block :
      (dbs : C.Table × B.Table) (k : BackupKey)
      → B.get
          (write_all C B block_height (P.iterate db (prefix block_height (some block_hash))) dbs).1
          k
        ≡ (if k.height == sub64 block_height 1
              && takes
                  (P.get db (gen_pre_commit_key k.address block_height block_hash))
                  (C.get dbs.0 k.address)
            then some (original (C.get dbs.0 k.address))
            else B.get dbs.1 k)
  unfolding gen_pre_commit_key prefix
  backup_after_block dbs k = ground (
    arith,
    backup-write_all C B block_height block_hash _ dbs k
        (P.iterate-DistinctKeys db (prefix block_height (some block_hash))) Entries-of_block,
    P.lookup-iterate db (prefix block_height (some block_hash))
        (gen_pre_commit_key k.address block_height block_hash),
  )
