-- ===== src/Claim/Scenarios.antt =====
-- A claim that is paid and rolled back, at concrete stores.
use rewardcalculator.Base.{
  nat_eq, ◌-◌, ◌≡◌, refl, arith, true, none, some, [], ◌∷◌, if◌then◌else◌, ltb, leb, ◌&&◌,
}
use rewardcalculator.Base.Int.{pos}
use rewardcalculator.Claim.Types.{pre_commit_key_eq, backup_key_eq}
use rewardcalculator.Claim.Request.{CommitClaim}
use rewardcalculator.Claim.Backup.{
  write_claim_backup_info, claim_backup_period, check_claim_db_rollback,
}
use rewardcalculator.Claim.Backup.Retention.{get-write_claim_backup_info}
use rewardcalculator.Claim.Block.{Stores, write_pre_commit_to_claim_db}
use rewardcalculator.Claim.Rollback.{rollback_claim_db}
use rewardcalculator.Claim.Rollback.Undo.{rollback_undoes_blocks}
use rewardcalculator.Claim.Rollback.Undo.Step.{IsBefore, commit_blocks}
use rewardcalculator.Claim.Protocol.{World}
use rewardcalculator.Claim.Tests.{
  pre_commits, claims, backups, no_pre_commits, no_claims, no_backups, query_db, confirmed,
  confirmed-IsKeyed, key,
}

abbrev stores : Stores pre_commits claims backups
stores = record {
  pre_commit = no_pre_commits;
  claim = no_claims;
  claim_backup = no_backups;
  backup_info = none;
}

abbrev world : World pre_commits claims backups
world = record { stores = stores; current = 10; query_db = query_db }

abbrev commit_request : CommitClaim
commit_request = record {
  success = true;
  address = 7;
  block_height = 11;
  block_hash = some 99;
  tx_index = 0;
  tx_hash = some 55;
}

-- A backup of an original at height 10.
abbrev one_backup : backups.Table
one_backup = backups.set no_backups key (record { block_height = 3; i_score = pos 1000 })

get-write_claim_backup_info_example :
    backups.get
      (write_claim_backup_info backups one_backup
        (some (record { first_block_height = 5; last_block_height = 90000 }))
        90001).0
      key
    ≡ (if leb 5 10 && ltb 10 (90001 - claim_backup_period)
        then none
        else backups.get one_backup key)
get-write_claim_backup_info_example =
    get-write_claim_backup_info backups one_backup
      (some (record { first_block_height = 5; last_block_height = 90000 })) 90001 (omega arith)
      (omega arith) key

-- Backups are kept from height 5 on.
abbrev running : Stores pre_commits claims backups
running = record stores {
  backup_info = some (record { first_block_height = 5; last_block_height = 10 });
}

running-IsBefore : IsBefore pre_commits claims backups running 11
running-IsBefore = record {
  positive = omega arith;
  first = omega arith;
  last = omega arith;
  proper = λ a. tt;
  unused = λ k above. refl;
}

abbrev after_block : Stores pre_commits claims backups
after_block = commit_blocks pre_commits claims backups 11 ((99, confirmed) ∷ []) running

abbrev rolled_back : Stores pre_commits claims backups
rolled_back = (rollback_claim_db pre_commits claims backups after_block 10).0

rollback_undoes_blocks_example :
    (claims.get rolled_back.claim 7 ≡ claims.get running.claim 7)
    × (backups.get rolled_back.claim_backup key ≡ none)
unfolding rollback_claim_db write_pre_commit_to_claim_db write_claim_backup_info
    check_claim_db_rollback
rollback_undoes_blocks_example =
    rollback_undoes_blocks pre_commits claims backups (99, confirmed) [] running 10
      (confirmed-IsKeyed, tt) running-IsBefore (omega arith) refl 7 key (omega arith)
