-- ===== src/Calculate/Whole/Tests.antt =====
-- A calculation request at concrete values: two sub-DBs, one account.
use rewardcalculator.Base.{
  ℕ, nat_eq, zero, suc, arith, refl, ◌≡◌, Bool, true, false, none, some, List, [], ◌∷◌,
}
use rewardcalculator.Base.Int.{pos}
use rewardcalculator.Account.Types.{IScoreData}
use rewardcalculator.Db.Engine.{Engine}
use rewardcalculator.Db.MapDb.{empty, engine}
use rewardcalculator.Db.Batch.{Batches, listed}
use rewardcalculator.Db.Sharded as Sharded
use rewardcalculator.Context.Info.{DbInfoData, IScoreDb, accept_calculate, is_calculating, ok}
use rewardcalculator.Context.Accounts.{get_account_db_index, get_calc_db_list}
use rewardcalculator.Context.Governance.{
  GovernanceVariable, PRep, update_governance_variable, update_prep,
}
use rewardcalculator.Context.Candidates.{PRepCandidate}
use rewardcalculator.Query.Results.{CrData}
use rewardcalculator.Calculate.Tests.{gv, preps, candidates, txs, blocks, count, add_hash}
use rewardcalculator.Context.Periods.{get_by_block_height, prune}
use rewardcalculator.Db.Sharded.{shard}
use rewardcalculator.Calculate.Total.{member}
use rewardcalculator.Calculate.Produce.{collect_rewards}
use rewardcalculator.Calculate.Produce.Effect as Produced
use rewardcalculator.Calculate.PReps.Effect.{AllListed}
use rewardcalculator.Calculate.Transactions.Effect as Paid
use rewardcalculator.Calculate.Database.Totals.{AreAmong, AreBelow}
use rewardcalculator.Calculate.Calculation.Conserved.{AllAmong}
use rewardcalculator.Calculate.Whole.{IissData, Shards, input_of, prepare}
use rewardcalculator.Calculate.Whole.Conserved.{Conserves, accepted, do_calculate-Conserves}
use rewardcalculator.Calculate.Whole.Outcome.{Ctx, Outcomes, request, do_calculate-Outcomes}

abbrev sub_db : Engine ℕ IScoreData
sub_db = engine ℕ IScoreData

abbrev no_accounts : sub_db.Table
no_accounts = empty ℕ IScoreData

nothing_there : (j : ℕ) → sub_db.get no_accounts j ≡ none
nothing_there j = refl

abbrev batches : Batches (Sharded.engine sub_db no_accounts nothing_there (get_account_db_index 2))
batches = listed (Sharded.engine sub_db no_accounts nothing_there (get_account_db_index 2))

abbrev variables : Engine ℕ GovernanceVariable
variables = engine ℕ GovernanceVariable

abbrev lists : Engine ℕ PRep
lists = engine ℕ PRep

abbrev candidate_db : Engine ℕ PRepCandidate
candidate_db = engine ℕ PRepCandidate

abbrev results : Engine ℕ (CrData ℕ)
results = engine ℕ (CrData ℕ)

abbrev last_hash : List (ℕ × IScoreData) → ℕ
last_hash l = 0

abbrev info : DbInfoData
info = record {
  db_count = 2;
  query_db_is_zero = true;
  current = record { block_height = 41; block_hash = 5 };
  calc_done = 10;
  prev_calc_done = 5;
  calculating = 10;
  toggle_bh = 11;
}

abbrev context :
    Ctx 0 0 count add_hash last_hash 2 sub_db no_accounts nothing_there batches variables lists
      candidate_db results
context = record {
  accounts = record {
    idb = record { info = info; stored = info };
    account0 = no_accounts ∷ no_accounts ∷ [];
    account1 =
        sub_db.set no_accounts 7 (record {
          delegations = record { address = 3; delegate = pos 1000000 } ∷ [];
          block_height = 12;
          i_score = pos 5;
        })
        ∷ no_accounts
        ∷ [];
    backups = [];
  };
  gvs = (gv ∷ [], variables.set (empty ℕ GovernanceVariable) 10 gv);
  preps = (preps, empty ℕ PRep);
  candidates = record { memory = candidates; db = empty ℕ PRepCandidate };
  revision = 7;
  results = empty ℕ (CrData ℕ);
  cancel_code = 0;
}

abbrev iiss : IissData
iiss = record {
  header = some 40;
  revision = 8;
  gv_list = [];
  prep_list = [];
  txs = txs;
  blocks = blocks;
}

abbrev never : ℕ → ℕ → Bool
never i j = false

do_calculate-Outcomes_example :
    let r =
      request 0 0 count add_hash last_hash 2 sub_db no_accounts nothing_there batches variables
        lists candidate_db results never false 10 false iiss context in
    Outcomes 0 0 count add_hash last_hash 2 sub_db no_accounts nothing_there batches variables lists
      candidate_db results context r.0 r.1
do_calculate-Outcomes_example =
    do_calculate-Outcomes 0 0 count add_hash last_hash 2 sub_db no_accounts nothing_there batches
      variables lists candidate_db results never false 10 false iiss context

-- The DB information once the request is accepted.
abbrev running : DbInfoData
running = record info { calculating = 40 }

abbrev started : IScoreDb
started = record { info = running; stored = running }

is_accepted : accept_calculate context.accounts.idb false (some 40) ≡ (started, ok)
unfolding accept_calculate is_calculating
is_accepted = refl

abbrev holders : List ℕ
holders = 3 ∷ 4 ∷ 5 ∷ 7 ∷ []

abbrev dbs : Engine ℕ IScoreData
dbs =
    Shards 0 0 count add_hash last_hash 2 sub_db no_accounts nothing_there batches variables lists
      candidate_db results

abbrev shard_of : ℕ → sub_db.Table
shard_of i =
    shard sub_db no_accounts nothing_there (get_account_db_index 2)
      (get_calc_db_list context.accounts) i

-- An account that is found in a sub-DB is the one of address 7.
found_in_shard :
    (i a : ℕ) (ia : IScoreData)
    → sub_db.get (shard_of i) a ≡ some ia
    → (a ≡ 7) × (ia.block_height ≡ 12)
unfolding shard get_calc_db_list
found_in_shard zero a ia h = ground (arith, h)
found_in_shard (suc zero) a ia h = cc
found_in_shard (suc (suc i)) a ia h = cc

none_in_shard : (i a : ℕ) → member a holders ≡ false → sub_db.get (shard_of i) a ≡ none
unfolding shard get_calc_db_list
none_in_shard zero a h = ground (arith, h)
none_in_shard (suc zero) a h = refl
none_in_shard (suc (suc i)) a h = refl

among : AreAmong holders (dbs.get (get_calc_db_list context.accounts))
unfolding Sharded.get
among a h = none_in_shard (get_account_db_index 2 a) a h

below : AreBelow 40 (dbs.get (get_calc_db_list context.accounts))
unfolding Sharded.get
below a ia h = omega (arith, (found_in_shard (get_account_db_index 2 a) a ia h).1)

all_listed : AllAmong 0 0 count add_hash last_hash (get_account_db_index 2) dbs batches holders (
    input_of 0 0 count add_hash last_hash 2 sub_db no_accounts nothing_there batches variables lists
      candidate_db results iiss 40
      (prepare 0 0 count add_hash last_hash 2 sub_db no_accounts nothing_there batches variables
        lists candidate_db results iiss 40
        (accepted 0 0 count add_hash last_hash 2 sub_db no_accounts nothing_there batches variables
          lists candidate_db results context started)))
unfolding Paid.AreListed Produced.AreListed AllListed collect_rewards get_by_block_height prepare
    update_governance_variable update_prep prune
all_listed = ((refl, (refl, tt)), (refl, (refl, (refl, tt))), ((refl, (refl, tt)), tt))

do_calculate-Conserves_example :
    let r =
      request 0 0 count add_hash last_hash 2 sub_db no_accounts nothing_there batches variables
        lists candidate_db results never false 10 false iiss context in
    Conserves 0 0 count add_hash last_hash 2 sub_db no_accounts nothing_there batches variables
      lists candidate_db results holders context r.0 r.1
do_calculate-Conserves_example =
    do_calculate-Conserves 0 0 count add_hash last_hash 2 sub_db no_accounts nothing_there batches
      variables lists candidate_db results holders never 10 false iiss context started is_accepted
      (refl, (refl, (refl, (refl, tt)))) (omega arith) (λ i j. refl) tt (λ e. omega (arith, e))
      among below all_listed
