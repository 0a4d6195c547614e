-- ===== src/Claim/Protocol.antt =====
-- The claim requests of icon_rc's client as steps on the stores: the handlers claim, commitClaim,
-- startBlock and commitBlock of core/msg_claim.go. The order of the requests is the one of
-- docs/iiss_iscore.wsd: a claim names the block after the last committed one, and so does the
-- commit of a block.
use rewardcalculator.Base.{ℕ, nat_eq, ◌+◌, ◌≡◌, true, false, Option, none, some}
use rewardcalculator.Base.Int.{ℤ, pos, ◌≤ℤ◌}
use rewardcalculator.Db.Engine.{Engine}
use rewardcalculator.Account.Types.{IScoreData}
use rewardcalculator.Claim.Types.{
  ClaimData, PreCommitData, PreCommitKey, BackupKey, pre_commit_key_eq, backup_key_eq,
}
use rewardcalculator.Claim.Request.{ClaimMessage, CommitClaim, do_claim, do_commit_claim}
use rewardcalculator.Claim.Block.{Stores, start_block, commit_block}

-- The I-Score of an account in the query DB, zero where there is none.
abbrev pub score_of : Option IScoreData → ℤ
score_of none = pos 0
score_of (some ia) = ia.i_score

-- The I-Score that was claimed, zero where there is no claim.
abbrev pub claimed_of : Option ClaimData → ℤ
claimed_of none = pos 0
claimed_of (some c) = c.i_score

module _ (P : Engine PreCommitKey PreCommitData) (C : Engine ℕ ClaimData)
    (B : Engine BackupKey ClaimData) where
  -- The stores, the last committed block and the accounts of the query DB.
  pub record World : Type 0 where
    pub stores : Stores P C B
    pub current : ℕ
    pub query_db : ℕ → Option IScoreData

  -- The environment chooses the requests and their fields.
  pub data Step : World → World → Type 0 where
    claimed :
        (w : World) (req : ClaimMessage)
        → req.block_height ≡ w.current + 1
        → Step w (record w {
          stores = record w.stores {
            pre_commit = (do_claim P C w.stores.pre_commit w.stores.claim w.query_db req).0;
          };
        })
    committed_claim :
        (w : World) (req : CommitClaim)
        → Step w (record w {
          stores = record w.stores { pre_commit = do_commit_claim P w.stores.pre_commit req };
        })
    started_block :
        (w : World) (block_height : ℕ) (block_hash : Option ℕ)
        → Step w (record w { stores = start_block P C B w.stores block_height block_hash })
    -- COMMIT_BLOCK with success
    committed_block :
        (w : World) (block_hash : ℕ)
        → Step w (record w {
          stores = commit_block P C B w.stores true (w.current + 1) (some block_hash);
          current = w.current + 1;
        })
    -- COMMIT_BLOCK with failure
    dropped_block :
        (w : World) (block_height : ℕ) (block_hash : Option ℕ)
        → Step w (record w { stores = commit_block P C B w.stores false block_height block_hash })
    -- A calculation is done and the query DB is replaced, in which no I-Score is lower.
    calculated :
        (w : World) (query_db : ℕ → Option IScoreData)
        → ((a : ℕ) → score_of (w.query_db a) ≤ℤ score_of (query_db a))
        → Step w (record w { query_db = query_db })

  pub data Reach (w : World) : World → Type 0 where
    here : Reach w w
    next : {u v : World} → Reach w u → Step u v → Reach w v
