-- ===== src/Calculate/Whole/Conserved.antt =====
-- The I-Scores over a whole calculation request.
use Prim.{⊥}
use native.Mathlib.Nat.{mod-lt}
use rewardcalculator.Base.{
  ℕ, nat_eq, zero, suc, ◌+◌, ◌<◌, ◌≡◌, ◌≢◌, refl, ap, ◌∙◌, arith, Bool, false, none, some, Option,
  List, [], ◌∷◌, Entries,
}
use rewardcalculator.Base.Int.{◌+ℤ◌}
use rewardcalculator.Base.Words.{wrap64}
use rewardcalculator.Account.Types.{IScoreData}
use rewardcalculator.Db.Engine.{Engine}
use rewardcalculator.Db.Batch.{Batches}
use rewardcalculator.Db.Sharded.{engine, shard, get}
use rewardcalculator.Context.Info.{IScoreDb, ok, accept_calculate, set_calc_done_bh}
use rewardcalculator.Context.Accounts.{
  backup_name_eq, get_account_db_index, get_query_db_list, get_calc_db_list, toggle,
}
use rewardcalculator.Context.Accounts.Undo.{Of}
use rewardcalculator.Context.Accounts.Opened.{
  empties, get_calc_db_list-set, get_query_db_list-set, reset_account_db-opened,
}
use rewardcalculator.Context.Governance.{GovernanceVariable, PRep}
use rewardcalculator.Context.Candidates.{PRepCandidate}
use rewardcalculator.Query.Results.{CrData}
use rewardcalculator.Calculate.Total.{Distinct, total}
use rewardcalculator.Calculate.Database.Totals.{AreBelow, AreAmong}
use rewardcalculator.Calculate.Calculation.{calculate_all}
use rewardcalculator.Calculate.Calculation.Conserved.{
  AllAmong, rewards, calculate_all-total, rewards-IsSplit,
}
use rewardcalculator.Calculate.Calculation.Copies.{copies}
use rewardcalculator.Calculate.Calculation.Finished.{copies-AllDone}
use rewardcalculator.Calculate.Whole.{
  Context, IissData, CalcOutcome, refused, cancelled_by, finished, Shards, input_of, prepare,
  conclude, calculate_accepted, after_acceptance, do_calculate,
}
use rewardcalculator.Calculate.Whole.Outcome.{toggle-SameHeights}

module _ {H : Type 0} (new_hash zero_hash : H) (absorb : H → ℕ → IScoreData → H)
    (absorb_hash : H → H → H) (produce_hash : List (ℕ × IScoreData) → H) (db_count : ℕ)
    (S : Engine ℕ IScoreData) (empty : S.Table) (empty_get : (j : ℕ) → S.get empty j ≡ none)
    (T : Batches (engine S empty empty_get (get_account_db_index db_count)))
    (V : Engine ℕ GovernanceVariable) (R : Engine ℕ PRep) (C : Engine ℕ PRepCandidate)
    (D : Engine ℕ (CrData H)) where
  abbrev Ctx : Type 0
  Ctx =
      Context new_hash zero_hash absorb absorb_hash produce_hash db_count S empty empty_get T V R C
        D

  abbrev Outcome : Type 0
  Outcome =
      CalcOutcome new_hash zero_hash absorb absorb_hash produce_hash db_count S empty empty_get T V
        R C D

  abbrev Dbs : Engine ℕ IScoreData
  Dbs =
      Shards new_hash zero_hash absorb absorb_hash produce_hash db_count S empty empty_get T V R C D

  abbrev ready : IissData → ℕ → Ctx → Ctx
  ready iiss block_height ctx =
      prepare new_hash zero_hash absorb absorb_hash produce_hash db_count S empty empty_get T V R C
        D iiss block_height ctx

  -- The calculation ends, and adds its rewards to what the last one left, which the query DBs now
  -- are.
  abbrev pub Conserves : List ℕ → Ctx → Ctx → Outcome → Type 0
  Conserves l before after (refused status) = ⊥
  Conserves l before after (cancelled_by code) = ⊥
  Conserves l before after (finished stats state_hash) =
      (get_query_db_list after.accounts ≡ get_calc_db_list before.accounts)
      × (total Dbs l (get_calc_db_list after.accounts)
          ≡ total Dbs l (get_calc_db_list before.accounts) +ℤ stats.total_reward)
      × (stats.total_reward ≡ stats.beta1 +ℤ stats.beta2 +ℤ stats.beta3)

  shard-empties :
      (l : List S.Table) (i : ℕ)
      → shard S empty empty_get (get_account_db_index db_count) (empties empty l) i ≡ empty
  unfolding shard empties
  shard-empties [] i = refl
  shard-empties (t ∷ ts) zero = refl
  shard-empties (t ∷ ts) (suc i) = shard-empties ts i

  get-empties : (l : List S.Table) (a : ℕ) → Dbs.get (empties empty l) a ≡ none
  unfolding get
  get-empties l a = ap (λ t. S.get t a) (shard-empties l _) ∙ empty_get a

  index-inside : (a : ℕ) → 0 < db_count → get_account_db_index db_count a < db_count
  unfolding get_account_db_index
  index-inside a h = mod-lt _ h

  -- The account DBs that a calculation works on.
  ready-lists :
      (iiss : IissData) (block_height : ℕ) (ctx : Ctx)
      → Entries (Of ctx.accounts.idb.info.calc_done) ctx.accounts.backups
      → ctx.accounts.idb.info.toggle_bh ≢ wrap64 (block_height + 1)
      → (get_query_db_list (ready iiss block_height ctx).accounts ≡ get_calc_db_list ctx.accounts)
        × (get_calc_db_list (ready iiss block_height ctx).accounts
            ≡ empties empty (get_query_db_list ctx.accounts))
  unfolding prepare toggle
  ready-lists iiss block_height ctx of other =
      let heights = toggle-SameHeights ctx.accounts.idb (wrap64 (block_height + 1)) in
      rw heights.last (
        reset_account_db-opened empty ctx.accounts block_height (wrap64 (block_height + 1)) of
          other)

  calculate_accepted-Conserves :
      (l : List ℕ) (quit : ℕ → ℕ → Bool) (batch_count : ℕ) (iiss : IissData) (block_height : ℕ)
      (ctx : Ctx)
      → Distinct l
      → 0 < db_count
      → ((j k : ℕ) → quit j k ≡ false)
      → Entries (Of ctx.accounts.idb.info.calc_done) ctx.accounts.backups
      → ctx.accounts.idb.info.toggle_bh ≢ wrap64 (block_height + 1)
      → AreAmong l (Dbs.get (get_calc_db_list ctx.accounts))
      → AreBelow block_height (Dbs.get (get_calc_db_list ctx.accounts))
      → AllAmong new_hash zero_hash absorb absorb_hash produce_hash
          (get_account_db_index db_count)
          Dbs
          T
          l
          (input_of new_hash zero_hash absorb absorb_hash produce_hash db_count S empty empty_get T
            V R C D iiss block_height
            (ready iiss block_height ctx))
      → let r =
          calculate_accepted new_hash zero_hash absorb absorb_hash produce_hash db_count S empty
            empty_get T V R C D quit false batch_count iiss block_height ctx in
        Conserves l ctx r.0 r.1
  unfolding calculate_accepted conclude calculate_all set_calc_done_bh get_query_db_list
      get_calc_db_list
  calculate_accepted-Conserves l quit batch_count iiss block_height ctx d some_db quiet of other
        among below listed =
      let prepared = ready iiss block_height ctx in
      let input =
        input_of new_hash zero_hash absorb absorb_hash produce_hash db_count S empty empty_get T V R
          C D iiss block_height prepared in
      let lists = ready-lists iiss block_height ctx of other in
      let query = get_query_db_list prepared.accounts in
      let calc = get_calc_db_list prepared.accounts in
      let copied =
        copies new_hash zero_hash absorb absorb_hash produce_hash (get_account_db_index db_count)
          Dbs T quit batch_count input query db_count 0 calc in
      let output =
        rewards new_hash zero_hash absorb absorb_hash produce_hash (get_account_db_index db_count)
          Dbs T input copied in
      (
        get_query_db_list-set prepared.accounts output.table ∙ lists.0,
        ap (total Dbs l) (get_calc_db_list-set prepared.accounts output.table)
            ∙ rw (← lists.0) (
                calculate_all-total new_hash zero_hash absorb absorb_hash produce_hash
                  (get_account_db_index db_count) Dbs T quit batch_count db_count input query calc l
                  output d (rw lists.0 among) (rw lists.0 below) listed
                  (λ a. rw lists.1 (get-empties _ a)) (λ a. index-inside a some_db)
                  (copies-AllDone new_hash zero_hash absorb absorb_hash produce_hash
                    (get_account_db_index db_count) Dbs T quit batch_count input query db_count 0
                    calc quiet)
                  refl),
        rewards-IsSplit new_hash zero_hash absorb absorb_hash produce_hash
            (get_account_db_index db_count) Dbs T input copied,
      )

  -- The context once a request is accepted with some DB information.
  abbrev pub accepted : Ctx → IScoreDb → Ctx
  accepted ctx idb = record ctx { accounts = record ctx.accounts { idb = idb } }

  -- An acceptance changes neither the toggle nor the last calculation.
  accept_calculate-keeps :
      (idb : IScoreDb) (reload : Bool) (header : Option ℕ)
      → let idb' = (accept_calculate idb reload header).0 in
        (idb'.info.calc_done ≡ idb.info.calc_done)
        × (idb'.info.toggle_bh ≡ idb.info.toggle_bh)
        × (idb'.info.query_db_is_zero ≡ idb.info.query_db_is_zero)
  unfolding accept_calculate
  accept_calculate-keeps idb reload none = ground arith
  accept_calculate-keeps idb reload (some header) = ground arith

  Conserves-same :
      (l : List ℕ) (a b c : Ctx) (o : Outcome)
      → get_calc_db_list a.accounts ≡ get_calc_db_list b.accounts
      → Conserves l a c o
      → Conserves l b c o
  Conserves-same l a b c (refused status) e h = h
  Conserves-same l a b c (cancelled_by code) e h = h
  Conserves-same l a b c (finished stats state_hash) e h = rw (← e) h

  -- The same DBs where the sets have not changed places.
  same-lists :
      (ctx : Ctx) (idb : IScoreDb)
      → idb.info.query_db_is_zero ≡ ctx.accounts.idb.info.query_db_is_zero
      → get_calc_db_list (accepted ctx idb).accounts ≡ get_calc_db_list ctx.accounts
  unfolding get_calc_db_list
  same-lists ctx idb e = rw e refl

  -- A request that is accepted, at a height whose successor is not that of the last toggle, where
  -- all backups are of the last calculation, and that is neither cancelled nor interrupted: it ends,
  -- and the query DBs are then the calculate DBs of before. Where the accounts of these are below
  -- its height and, with those of the transactions, the blocks and the P-Rep lists, among some
  -- accounts, each listed once, and there is a sub-DB, the calculate DBs hold the I-Scores that they
  -- held before the request and the total of its statistics, which is the sum of the three kinds of
  -- rewards.
  pub do_calculate-Conserves :
      (l : List ℕ) (quit : ℕ → ℕ → Bool) (batch_count : ℕ) (reload : Bool) (iiss : IissData)
      (ctx : Ctx) (idb : IScoreDb)
      → accept_calculate ctx.accounts.idb reload iiss.header ≡ (idb, ok)
      → Distinct l
      → 0 < db_count
      → ((j k : ℕ) → quit j k ≡ false)
      → Entries (Of ctx.accounts.idb.info.calc_done) ctx.accounts.backups
      → ctx.accounts.idb.info.toggle_bh ≢ wrap64 (idb.info.calculating + 1)
      → AreAmong l (Dbs.get (get_calc_db_list ctx.accounts))
      → AreBelow idb.info.calculating (Dbs.get (get_calc_db_list ctx.accounts))
      → AllAmong new_hash zero_hash absorb absorb_hash produce_hash
          (get_account_db_index db_count)
          Dbs
          T
          l
          (input_of new_hash zero_hash absorb absorb_hash produce_hash db_count S empty empty_get T
            V R C D iiss idb.info.calculating
            (ready iiss idb.info.calculating (accepted ctx idb)))
      → let r =
          do_calculate new_hash zero_hash absorb absorb_hash produce_hash db_count S empty empty_get
            T V R C D quit false batch_count reload iiss ctx in
        Conserves l ctx r.0 r.1
  unfolding do_calculate after_acceptance
  do_calculate-Conserves l quit batch_count reload iiss ctx idb e d some_db quiet of other among
        below listed =
      let is : (accept_calculate ctx.accounts.idb reload iiss.header).0 ≡ idb = ap (λ p. p.0) e in
      let keeps = accept_calculate-keeps ctx.accounts.idb reload iiss.header in
      let last : idb.info.calc_done ≡ ctx.accounts.idb.info.calc_done = rw (← is) keeps.0 in
      let toggled : idb.info.toggle_bh ≡ ctx.accounts.idb.info.toggle_bh = rw (← is) keeps.1 in
      let side = same-lists ctx idb (rw (← is) keeps.2) in
      let r =
        calculate_accepted new_hash zero_hash absorb absorb_hash produce_hash db_count S empty
          empty_get T V R C D quit false batch_count iiss idb.info.calculating (accepted ctx idb) in
      rw e (
        Conserves-same l (accepted ctx idb) ctx r.0 r.1 side (
          calculate_accepted-Conserves l quit batch_count iiss idb.info.calculating
            (accepted ctx idb) d some_db quiet (rw last of) (rw toggled other) (rw side among)
            (rw side below) listed))
