-- ===== src/Query/Tests.antt =====
-- Queries at concrete stores.
use rewardcalculator.Base.{
  ℕ, nat_eq, ◌≡◌, refl, arith, true, Option, none, some, [], ltb, leb, ◌+◌, ◌==◌, ◌&&◌,
  if◌then◌else◌,
}
use rewardcalculator.Base.Int.{pos, ◌-ℤ◌, ◌*ℤ◌, ◌/ℤ◌, ◌%ℤ◌}
use rewardcalculator.Db.Engine.{Engine}
use rewardcalculator.Db.MapDb.{empty, engine}
use rewardcalculator.Account.Types.{IScoreData}
use rewardcalculator.Claim.Types.{
  ClaimData, PreCommitData, PreCommitKey, pre_commit_key_eq, pre_commit_key_beq,
}
use rewardcalculator.Claim.PreCommit.{new_pre_commit, id, query}
use rewardcalculator.Claim.Request.{ClaimMessage, do_claim}
use rewardcalculator.Claim.Request.Payout.{IsPayout}
use rewardcalculator.Context.Info.{DbInfoData, IScoreDb}
use rewardcalculator.Statistics.{Statistics}
use rewardcalculator.Query.{do_query, do_init}
use rewardcalculator.Query.AfterClaim.{plain, about, query_after_claim, get-do_init}
use rewardcalculator.Query.Results.{
  CrData, succeeded, invalid_bh, write_calculation_result, delete_calculation_result,
}
use rewardcalculator.Query.Results.Stored.{answer, runs_at, answer-after_write}

abbrev pre_commits : Engine PreCommitKey PreCommitData
pre_commits = engine PreCommitKey PreCommitData

abbrev claims : Engine ℕ ClaimData
claims = engine ℕ ClaimData

abbrev no_pre_commits : pre_commits.Table
no_pre_commits = empty PreCommitKey PreCommitData

abbrev no_claims : claims.Table
no_claims = empty ℕ ClaimData

abbrev query_db : ℕ → Option IScoreData
query_db a =
    if a == 7
    then some (record { i_score = pos 2500; block_height = 10; delegations = [] })
    else none

abbrev request : ClaimMessage
request = record {
  address = 7;
  block_height = 11;
  block_hash = some 99;
  tx_index = 0;
  tx_hash = some 55;
}

query_after_claim_example :
    let db' = (do_claim pre_commits claims no_pre_commits no_claims query_db request).0 in
    IsPayout
      (do_query pre_commits claims no_pre_commits no_claims query_db
        (plain pre_commits claims 7)).i_score
      (pos 2000)
    × (do_query pre_commits claims db' no_claims query_db (about pre_commits claims request 55)
        ≡ record { address = 7; i_score = pos 0; block_height = 11 })
    × (do_query pre_commits claims db' no_claims query_db (plain pre_commits claims 7)
        ≡ do_query pre_commits claims no_pre_commits no_claims query_db
            (plain pre_commits claims 7))
unfolding do_claim query new_pre_commit id pre_commit_key_beq ◌-ℤ◌ ◌*ℤ◌ ◌/ℤ◌ ◌%ℤ◌
query_after_claim_example =
    query_after_claim pre_commits claims no_pre_commits no_claims query_db request 55 (pos 2000)
      refl (omega arith) refl

abbrev info : DbInfoData
info = record {
  db_count = 2;
  query_db_is_zero = true;
  current = record { block_height = 20; block_hash = 5 };
  calc_done = 10;
  prev_calc_done = 5;
  calculating = 30;
  toggle_bh = 11;
}

abbrev idb : IScoreDb
idb = record { info = info; stored = info }

abbrev pending_key : PreCommitKey
pending_key = record { height = 25; hash = 99; address = 7 }

get-do_init_example :
    let (db', accepted) = do_init pre_commits idb no_pre_commits 21 in
    (accepted ≡ leb 21 (20 + 1))
    × (pre_commits.get db' pending_key
        ≡ (if accepted && ltb 21 25 then none else pre_commits.get no_pre_commits pending_key))
get-do_init_example =
    get-do_init pre_commits idb no_pre_commits 21 pending_key (omega arith) (omega arith)

abbrev results : Engine ℕ (CrData ℕ)
results = engine ℕ (CrData ℕ)

abbrev stats : Statistics
stats = record {
  accounts = 3;
  total_reward = pos 60;
  beta1 = pos 10;
  beta2 = pos 20;
  beta3 = pos 30;
}

abbrev no_results : results.Table
no_results = empty ℕ (CrData ℕ)

answer-after_write_example :
    let db' = write_calculation_result ℕ results no_results 10 (some stats) (some 77) in
    (answer ℕ results idb db' 10 ≡ (
      if runs_at ℕ results idb 10
      then answer ℕ results idb no_results 10
      else if 10 == 10
      then record { status = succeeded; block_height = 10; i_score = pos 60; state_hash = some 77 }
      else answer ℕ results idb no_results 10))
    × (answer ℕ results idb (delete_calculation_result ℕ results db' 10) 10 ≡ (
        if runs_at ℕ results idb 10
        then answer ℕ results idb no_results 10
        else if 10 == 10
        then record { status = invalid_bh; block_height = 10; i_score = pos 0; state_hash = none }
        else answer ℕ results idb no_results 10))
answer-after_write_example = answer-after_write ℕ results idb no_results 10 stats (some 77) 10
