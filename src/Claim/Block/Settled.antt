-- ===== src/Claim/Block/Settled.antt =====
-- The claims after writePreCommitToClaimDB of core/db_claim.go, told without its loop.
use rewardcalculator.Base.{
  ℕ, nat_eq, ◌≡◌, refl, arith, Option, none, some, ltb, ◌&&◌, not, if◌then◌else◌, ◌∙◌,
}
use rewardcalculator.Base.Int.{◌+ℤ◌, is_zero}
use rewardcalculator.Db.Engine.{Engine}
use rewardcalculator.Claim.Types.{
  ClaimData, PreCommitData, PreCommitKey, BackupKey, pre_commit_key_eq, backup_key_eq,
}
use rewardcalculator.Claim.PreCommit.{gen_pre_commit_key}
use rewardcalculator.Claim.PreCommit.Entries.{IsKeyed}
use rewardcalculator.Claim.Block.{Stores, claimed_with, write_pre_commit_to_claim_db}
use rewardcalculator.Claim.Block.Effect.{after, get-write_block}

-- The claim of an address that had `old`, after a block with this pre-commit of the address: only a
-- confirmed payment of some I-Score counts, and over a claim only one of a later height, which it
-- is added to.
abbrev pub settled : Option PreCommitData → Option ClaimData → Option ClaimData
settled none old = old
settled (some pc) none =
    if pc.confirmed && not (is_zero pc.claim.claim_data.i_score)
    then some pc.claim.claim_data
    else none
settled (some pc) (some old) =
    if pc.confirmed
      && not (is_zero pc.claim.claim_data.i_score)
      && ltb old.block_height pc.claim.claim_data.block_height
    then some (record {
      block_height = pc.claim.claim_data.block_height;
      i_score = pc.claim.claim_data.i_score +ℤ old.i_score;
    })
    else some old

after-settled : (pc : Option PreCommitData) (old : Option ClaimData) → after pc old ≡ settled pc old
unfolding claimed_with
after-settled none old = refl
after-settled (some pc) none = ground arith
after-settled (some pc) (some old) = ground arith

module _ (P : Engine PreCommitKey PreCommitData) (C : Engine ℕ ClaimData)
    (B : Engine BackupKey ClaimData) where
  -- Where pre-commits are under the keys of their addresses: after a block is written, every address
  -- has the claim that it had, unless its own pre-commit of this height and block is confirmed, pays
  -- an I-Score that is not zero, and is of a later height than its claim, if it has one; then it has
  -- the claim of the pre-commit, with the I-Score of the claim before added.
  pub claim_after_block :
      (s : Stores P C B) (block_height block_hash a : ℕ)
      → IsKeyed P s.pre_commit
      → C.get (write_pre_commit_to_claim_db P C B s block_height (some block_hash)).claim a
        ≡ settled
            (P.get s.pre_commit (gen_pre_commit_key a block_height block_hash))
            (C.get s.claim a)
  unfolding write_pre_commit_to_claim_db
  claim_after_block s block_height block_hash a keyed =
      get-write_block P C B s.pre_commit keyed block_height block_hash (s.claim, s.claim_backup) a
      ∙ after-settled (P.get s.pre_commit (gen_pre_commit_key a block_height block_hash))
          (C.get s.claim a)
