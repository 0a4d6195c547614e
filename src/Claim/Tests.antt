-- ===== src/Claim/Tests.antt =====
-- Claims at concrete stores: one account, one block.
use rewardcalculator.Base.{
  ℕ, nat_eq, ◌≡◌, refl, arith, Option, none, some, [], ◌==◌, ◌&&◌, if◌then◌else◌,
}
use rewardcalculator.Base.Int.{ℤ, pos, ◌+ℤ◌, ◌≤ℤ◌, ◌-ℤ◌, ◌*ℤ◌, ◌/ℤ◌, ◌%ℤ◌}
use rewardcalculator.Db.Engine.{Engine}
use rewardcalculator.Db.MapDb.{empty, engine}
use rewardcalculator.Account.Types.{IScoreData}
use rewardcalculator.Claim.Types.{
  ClaimData, PreCommitData, PreCommit, PreCommitKey, BackupKey, pre_commit_key_eq, backup_key_eq,
  pre_commit_key_beq, pre_commit_key_beq_iff,
}
use rewardcalculator.Claim.PreCommit.{
  new_pre_commit, id, gen_pre_commit_key, query, write, commit, prefix, flush_pre_commit,
}
use rewardcalculator.Claim.PreCommit.Entries.{IsKeyed, commit-IsKeyed}
use rewardcalculator.Claim.Request.{ClaimMessage, requested, do_claim}
use rewardcalculator.Claim.Request.Payout.{IsPayout, Pays, do_claim-Pays}
use rewardcalculator.Base.Words.{sub64}
use rewardcalculator.Db.Bulk.{delete_range, delete_keys}
use rewardcalculator.Claim.Block.{
  Stores, commit_block, write_pre_commit_to_claim_db, write_all, original,
}
use rewardcalculator.Claim.Block.Effect.{takes, backup_after_block}
use rewardcalculator.Claim.Block.Settled.{settled, claim_after_block}
use rewardcalculator.Claim.Again.{paid_out, claim_again}

abbrev pub pre_commits : Engine PreCommitKey PreCommitData
pre_commits = engine PreCommitKey PreCommitData

abbrev pub claims : Engine ℕ ClaimData
claims = engine ℕ ClaimData

abbrev pub backups : Engine BackupKey ClaimData
backups = engine BackupKey ClaimData

abbrev pub no_pre_commits : pre_commits.Table
no_pre_commits = empty PreCommitKey PreCommitData

abbrev pub no_claims : claims.Table
no_claims = empty ℕ ClaimData

abbrev pub account : IScoreData
account = record { i_score = pos 2500; block_height = 10; delegations = [] }

abbrev pub query_db : ℕ → Option IScoreData
query_db a = if a == 7 then some account else none

abbrev pub request : ClaimMessage
request = record {
  address = 7;
  block_height = 11;
  block_hash = some 99;
  tx_index = 0;
  tx_hash = some 55;
}

do_claim-Pays_example : Pays pre_commits claims no_pre_commits no_claims query_db request (pos 2000)
unfolding do_claim query new_pre_commit id pre_commit_key_beq ◌-ℤ◌ ◌*ℤ◌ ◌/ℤ◌ ◌%ℤ◌
do_claim-Pays_example =
    do_claim-Pays pre_commits claims no_pre_commits no_claims query_db request (pos 2000) refl

-- The store after the first claim.
abbrev pub claimed_once : pre_commits.Table
unfolding do_claim
claimed_once = (do_claim pre_commits claims no_pre_commits no_claims query_db request).0

abbrev pub named : PreCommit
named = requested pre_commits claims request

claimed_once-IsKeyed : IsKeyed pre_commits claimed_once
unfolding claimed_once do_claim query write new_pre_commit id ◌-ℤ◌ ◌*ℤ◌ ◌/ℤ◌ ◌%ℤ◌
claimed_once-IsKeyed = record {
  at_key = λ k b found.
      ground
        (arith, found, pre_commit_key_beq_iff (record { height = 11; hash = 99; address = 7 }) k);
}

-- The store after the commit of the claim's transaction.
abbrev pub confirmed : pre_commits.Table
unfolding commit
confirmed = (commit pre_commits claimed_once named).0

pub confirmed-IsKeyed : IsKeyed pre_commits confirmed
unfolding confirmed
confirmed-IsKeyed = commit-IsKeyed pre_commits claimed_once named claimed_once-IsKeyed

abbrev pub no_backups : backups.Table
no_backups = empty BackupKey ClaimData

abbrev pub key : BackupKey
key = record { height = 10; address = 7 }

-- The same account, calculated to a later height.
abbrev later_query_db : ℕ → Option IScoreData
later_query_db a = some (record account { i_score = pos 5500; block_height = 20 })

abbrev later_request : ClaimMessage
later_request = record request { block_height = 21; block_hash = some 98 }

abbrev no_claim_yet : Stores pre_commits claims backups
no_claim_yet = record {
  pre_commit = no_pre_commits;
  claim = no_claims;
  claim_backup = no_backups;
  backup_info = none;
}

no_pre_commits-IsKeyed : IsKeyed pre_commits no_pre_commits
no_pre_commits-IsKeyed = record { at_key = λ k b found. ground (arith, found) }

abbrev after_first : Stores pre_commits claims backups
unfolding paid_out
after_first = paid_out pre_commits claims backups no_claim_yet query_db request 99

left_enough : pos 1000 ≤ℤ pos 5500 -ℤ (pos 2000 +ℤ pos 0)
unfolding ◌+ℤ◌ ◌-ℤ◌
left_enough = ground arith

claim_again_example :
    (paid : ℤ) × ((do_claim pre_commits claims after_first.pre_commit after_first.claim
        later_query_db later_request).2
      ≡ some paid)
    × IsPayout (pos 5500 -ℤ (pos 2000 +ℤ pos 0)) paid
unfolding do_claim query new_pre_commit id pre_commit_key_beq paid_out commit commit_block
    flush_pre_commit delete_range delete_keys ◌-ℤ◌ ◌*ℤ◌ ◌/ℤ◌ ◌%ℤ◌
claim_again_example =
    claim_again pre_commits claims backups no_claim_yet query_db request 99 (pos 2000)
      later_query_db (record account { i_score = pos 5500; block_height = 20 }) later_request
      no_pre_commits-IsKeyed refl refl tt refl refl refl (λ e. omega (arith, e)) left_enough

abbrev before_block : Stores pre_commits claims backups
before_block = record {
  pre_commit = confirmed;
  claim = no_claims;
  claim_backup = no_backups;
  backup_info = none;
}

claim_after_block_example :
    claims.get
      (write_pre_commit_to_claim_db pre_commits claims backups before_block 11 (some 99)).claim
      7
    ≡ settled (pre_commits.get confirmed (gen_pre_commit_key 7 11 99)) (claims.get no_claims 7)
claim_after_block_example =
    claim_after_block pre_commits claims backups before_block 11 99 7 confirmed-IsKeyed

backup_after_block_example :
    backups.get
      (write_all claims backups 11
        (pre_commits.iterate confirmed (prefix 11 (some 99)))
        (no_claims, no_backups)).1
      key
    ≡ (if key.height == sub64 11 1
          && takes (pre_commits.get confirmed (gen_pre_commit_key 7 11 99)) (claims.get no_claims 7)
        then some (original (claims.get no_claims 7))
        else backups.get no_backups key)
backup_after_block_example =
    backup_after_block pre_commits claims backups confirmed confirmed-IsKeyed 11 99
      (no_claims, no_backups) key
