-- ===== src/Rollback/Tests.antt =====
-- A rollback at concrete stores, behind the last calculation.
use rewardcalculator.Base.{ℕ, nat_eq, some, [], ◌∷◌, true}
use rewardcalculator.Db.Engine.{Engine}
use rewardcalculator.Db.MapDb.{empty, engine}
use rewardcalculator.Claim.Types.{
  ClaimData, PreCommitData, PreCommitKey, BackupKey, pre_commit_key_eq, backup_key_eq,
}
use rewardcalculator.Context.Info.{DbInfoData}
use rewardcalculator.Context.Governance.{GovernanceVariable, PRep}
use rewardcalculator.Rollback.{Calculator, do_roll_back}
use rewardcalculator.Rollback.Outcome.{Outcome, do_roll_back-Outcome}

abbrev pre_commits : Engine PreCommitKey PreCommitData
pre_commits = engine PreCommitKey PreCommitData

abbrev claims : Engine ℕ ClaimData
claims = engine ℕ ClaimData

abbrev backups : Engine BackupKey ClaimData
backups = engine BackupKey ClaimData

abbrev gvs : Engine ℕ GovernanceVariable
gvs = engine ℕ GovernanceVariable

abbrev preps : Engine ℕ PRep
preps = engine ℕ PRep

abbrev info : DbInfoData
info = record {
  db_count = 1;
  query_db_is_zero = true;
  current = record { block_height = 25; block_hash = 9 };
  calc_done = 20;
  prev_calc_done = 10;
  calculating = 20;
  toggle_bh = 21;
}

-- One account store, written here as a number.
abbrev calculator : Calculator ℕ pre_commits claims backups gvs preps
calculator = record {
  stores = record {
    pre_commit = empty PreCommitKey PreCommitData;
    claim = empty ℕ ClaimData;
    claim_backup = empty BackupKey ClaimData;
    backup_info = some (record { first_block_height = 5; last_block_height = 25 });
  };
  accounts = record {
    idb = record { info = info; stored = info };
    account0 = 100 ∷ [];
    account1 = 200 ∷ [];
    backups = (record { calc_bh = 20; index = 1 }, 50) ∷ [];
  };
  management = (([], empty ℕ GovernanceVariable), ([], empty ℕ PRep));
  cancel_code = 0;
}

do_roll_back-Outcome_example :
    Outcome ℕ pre_commits claims backups gvs preps calculator 15
      (do_roll_back ℕ pre_commits claims backups gvs preps calculator 15 (some 77))
do_roll_back-Outcome_example =
    do_roll_back-Outcome ℕ pre_commits claims backups gvs preps calculator 15 (some 77)
