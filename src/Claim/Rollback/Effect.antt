-- ===== src/Claim/Rollback/Effect.antt =====
-- What the rollback of one block height leaves in the claim DB and its backup.
use rewardcalculator.Base.{
  ℕ, nat_eq, ◌≡◌, refl, Option, none, some, List, [], ◌∷◌, arith, ◌==◌, if◌then◌else◌, lookup,
  DistinctKeys, Entries, Entries-of_lookup,
}
use rewardcalculator.Db.Engine.{Engine}
use rewardcalculator.Db.Bulk.{delete_range, get-delete_range}
use rewardcalculator.Claim.Types.{
  ClaimData, BackupKey, backup_key_eq, backup_key_beq_iff, is_nil_claim,
}
use rewardcalculator.Claim.Backup.{at_height}
use rewardcalculator.Claim.Rollback.{restore, rollback_height}

-- The claim of an address with its backup put back.
abbrev pub put_back : Option ClaimData → Option ClaimData → Option ClaimData
put_back none now = now
put_back (some d) now = if is_nil_claim d then none else some d

module _ (C : Engine ℕ ClaimData) (B : Engine BackupKey ClaimData) (block_height : ℕ) where
  abbrev key : ℕ → BackupKey
  key a = record { height = block_height; address = a }

  abbrev AtHeight : BackupKey → ClaimData → Type 0
  AtHeight k d = k.height ≡ block_height

  get-restore :
      (l : List (BackupKey × ClaimData)) (cdb : C.Table) (a : ℕ)
      → DistinctKeys l
      → Entries AtHeight l
      → C.get (restore C B l cdb) a ≡ put_back (lookup (key a) l) (C.get cdb a)
  unfolding restore
  get-restore [] cdb a d h = refl
  get-restore ((k, v) ∷ l) cdb a d h = ground (
    arith,
    get-restore l (if is_nil_claim v then C.delete cdb k.address else C.set cdb k.address v) a d.1
        h.1,
    C.get-set cdb k.address v a,
    C.get-delete cdb k.address a,
    backup_key_beq_iff k (key a),
  )

  Entries-at_height : (bdb : B.Table) → Entries AtHeight (B.iterate bdb (at_height block_height))
  Entries-at_height bdb =
      Entries-of_lookup AtHeight _ (B.iterate-DistinctKeys bdb (at_height block_height))
        λ k d found. ground (arith, found, B.lookup-iterate bdb (at_height block_height) k)

  -- Each address gets its original of that height back, if there is one.
  pub claim-rollback_height :
      (dbs : C.Table × B.Table) (a : ℕ)
      → C.get (rollback_height C B block_height dbs).0 a
        ≡ put_back (B.get dbs.1 (key a)) (C.get dbs.0 a)
  unfolding rollback_height
  claim-rollback_height (cdb, bdb) a = ground (
    arith,
    get-restore (B.iterate bdb (at_height block_height)) cdb a
        (B.iterate-DistinctKeys bdb (at_height block_height)) (Entries-at_height bdb),
    B.lookup-iterate bdb (at_height block_height) (key a),
  )

  -- The backup of that height is gone, and no other.
  pub backup-rollback_height :
      (dbs : C.Table × B.Table) (k : BackupKey)
      → B.get (rollback_height C B block_height dbs).1 k
        ≡ (if k.height == block_height then none else B.get dbs.1 k)
  unfolding rollback_height delete_range
  backup-rollback_height (cdb, bdb) k = get-delete_range B (at_height block_height) bdb k
