-- ===== src/Calculate/Whole/Outcome.antt =====
-- What becomes of a calculation request.
use rewardcalculator.Base.{
  ℕ, Option, nat_eq, ◌+◌, ◌<◌, ◌≡◌, ◌≢◌, ◌⊎◌, refl, ap, ◌∙◌, arith, Bool, true, false, none, some,
  List, ltb, ◌==◌, Bool-cases, inl, inr,
}
use rewardcalculator.Base.Words.{wrap64}
use rewardcalculator.Account.Types.{IScoreData}
use rewardcalculator.Db.Engine.{Engine}
use rewardcalculator.Db.Batch.{Batches}
use rewardcalculator.Db.Sharded.{engine}
use rewardcalculator.Context.Info.{
  IScoreDb, CalcStatus, ok, invalid_data, doing, invalid_bh, duplicate_bh, accept_calculate,
  set_calc_done_bh, is_calculating, toggle_account_db, write_to_db, set_calculating_bh,
}
use rewardcalculator.Context.Info.Heights.{
  Accepted, is_dropped, is_run, is_refused, accept_calculate_cases,
}
use rewardcalculator.Context.Accounts.{
  Accounts, get_account_db_index, toggle, reset_account_db, set_calc_db_list,
}
use rewardcalculator.Context.Governance.{GovernanceVariable, PRep}
use rewardcalculator.Context.Candidates.{PRepCandidate}
use rewardcalculator.Query.Results.{CrData, new_result, write_calculation_result}
use rewardcalculator.Calculate.Whole.{
  Context, IissData, CalcOutcome, refused, cancelled_by, finished, Calculation, cancel_none,
  prepare, conclude, calculate_accepted, after_acceptance, do_calculate,
}

module _ {A : Type 0} where
  idb-set_calc_db_list : (s : Accounts A) (l : List A) → (set_calc_db_list s l).idb ≡ s.idb
  unfolding set_calc_db_list
  idb-set_calc_db_list s l = elim (Bool-cases s.idb.info.query_db_is_zero) [
    | inl zero ↦ rw zero refl
    | inr one ↦ rw one refl
  ]

  idb-reset_account_db :
      (empty : A) (s : Accounts A) (block_height old : ℕ)
      → (reset_account_db empty s block_height old).idb ≡ s.idb
  unfolding reset_account_db
  idb-reset_account_db empty s block_height old = idb-set_calc_db_list _ _

-- The heights of the calculations are those of another.
pub record SameHeights (a b : IScoreDb) : Type 0 where
  pub prev : a.info.prev_calc_done ≡ b.info.prev_calc_done
  pub last : a.info.calc_done ≡ b.info.calc_done
  pub running : a.info.calculating ≡ b.info.calculating

pub toggle-SameHeights :
    (idb : IScoreDb) (block_height : ℕ) → SameHeights (toggle_account_db idb block_height) idb
unfolding toggle_account_db write_to_db
toggle-SameHeights idb block_height = elim (Bool-cases (idb.info.toggle_bh == block_height)) [
  | inl same ↦ rw same (record { prev = refl; last = refl; running = refl })
  | inr other ↦ rw other (record { prev = refl; last = refl; running = refl })
]

module _ {H : Type 0} (new_hash zero_hash : H) (absorb : H → ℕ → IScoreData → H)
    (absorb_hash : H → H → H) (produce_hash : List (ℕ × IScoreData) → H) (db_count : ℕ)
    (S : Engine ℕ IScoreData) (empty : S.Table) (empty_get : (j : ℕ) → S.get empty j ≡ none)
    (T : Batches (engine S empty empty_get (get_account_db_index db_count)))
    (V : Engine ℕ GovernanceVariable) (R : Engine ℕ PRep) (C : Engine ℕ PRepCandidate)
    (D : Engine ℕ (CrData H)) where
  abbrev pub Ctx : Type 0
  Ctx =
      Context new_hash zero_hash absorb absorb_hash produce_hash db_count S empty empty_get T V R C
        D

  abbrev pub Outcome : Type 0
  Outcome =
      CalcOutcome new_hash zero_hash absorb absorb_hash produce_hash db_count S empty empty_get T V
        R C D

  abbrev pub request : (ℕ → ℕ → Bool) → Bool → ℕ → Bool → IissData → Ctx → Ctx × Outcome
  request quit cancelled batch_count reload iiss ctx =
      do_calculate new_hash zero_hash absorb absorb_hash produce_hash db_count S empty empty_get T V
        R C D quit cancelled batch_count reload iiss ctx

  -- What holds of the context before and after a request, for each outcome.
  abbrev pub Outcomes : Ctx → Ctx → Outcome → Type 0
  Outcomes before after (refused status) =
      (status ≢ ok)
      × (after ≡ record before { accounts = record before.accounts { idb = after.accounts.idb } })
      × ((after.accounts.idb ≡ before.accounts.idb) ⊎ (is_calculating after.accounts.idb ≡ false))
  Outcomes before after (cancelled_by code) =
      (code ≡ before.cancel_code)
      × (after.cancel_code ≡ cancel_none)
      × (after.results ≡ before.results)
      × (after.accounts.idb.info.calc_done ≡ before.accounts.idb.info.calc_done)
      × (is_calculating after.accounts.idb ≡ true)
  Outcomes before after (finished stats state_hash) =
      (before.accounts.idb.info.calc_done < after.accounts.idb.info.calc_done)
      × (after.accounts.idb.info.prev_calc_done ≡ before.accounts.idb.info.calc_done)
      × (is_calculating after.accounts.idb ≡ false)
      × (after.results
          ≡ D.set before.results after.accounts.idb.info.calc_done
              (new_result H (some stats) (some state_hash)))

  -- The prepared context: the heights, and what it takes over.
  prepare-heights :
      (iiss : IissData) (block_height : ℕ) (ctx : Ctx)
      → SameHeights
          (prepare new_hash zero_hash absorb absorb_hash produce_hash db_count S empty empty_get T V
            R C D iiss block_height ctx).accounts.idb
          ctx.accounts.idb
  unfolding prepare toggle
  prepare-heights iiss block_height ctx =
      rw
        (idb-reset_account_db empty (toggle ctx.accounts (wrap64 (block_height + 1))) block_height
          _)
        (toggle-SameHeights ctx.accounts.idb (wrap64 (block_height + 1)))

  calculating_of :
      (a b : IScoreDb) → a ≡ b → b.info.calc_done < b.info.calculating → is_calculating a ≡ true
  unfolding is_calculating
  calculating_of a b e h = rw e (ground (arith, h))

  conclude-Outcomes :
      (before ready : Ctx) (block_height : ℕ)
      → ready.results ≡ before.results
      → ready.cancel_code ≡ before.cancel_code
      → ready.accounts.idb.info.calc_done ≡ before.accounts.idb.info.calc_done
      → ready.accounts.idb.info.calculating ≡ block_height
      → before.accounts.idb.info.calc_done < block_height
      → (c : Calculation new_hash zero_hash absorb absorb_hash produce_hash db_count S empty
          empty_get T V R C D)
      → let r =
          conclude new_hash zero_hash absorb absorb_hash produce_hash db_count S empty empty_get T V
            R C D block_height ready c in
        Outcomes before r.0 r.1
  unfolding conclude set_calc_done_bh write_to_db is_calculating write_calculation_result
  conclude-Outcomes before ready block_height results code last running above (calc, none) =
      let same = idb-set_calc_db_list ready.accounts calc in
      (
        code,
        refl,
        results,
        ap (λ (idb : IScoreDb). idb.info.calc_done) same ∙ last,
        calculating_of _ _ same (omega (arith, last, running, above)),
      )
  conclude-Outcomes before ready block_height results code last running above (calc, some output) =
      let same = idb-set_calc_db_list ready.accounts output.table in
      let ends : ltb block_height
            (set_calc_db_list ready.accounts output.table).idb.info.calculating
          ≡ false =
        ground (arith, ap (λ (idb : IScoreDb). idb.info.calculating) same, running) in
      (
        above,
        ap (λ (idb : IScoreDb). idb.info.calc_done) same ∙ last,
        ends,
        ap (λ t. D.set t block_height (new_result H (some output.stats) (some output.state_hash)))
            results,
      )

  accepted-Outcomes :
      (quit : ℕ → ℕ → Bool) (cancelled : Bool) (batch_count : ℕ) (iiss : IissData) (ctx : Ctx)
      (idb : IScoreDb)
      → idb.info.calc_done ≡ ctx.accounts.idb.info.calc_done
      → ctx.accounts.idb.info.calc_done < idb.info.calculating
      → let r =
          calculate_accepted new_hash zero_hash absorb absorb_hash produce_hash db_count S empty
            empty_get T V R C D quit cancelled batch_count iiss idb.info.calculating
            (record ctx { accounts = record ctx.accounts { idb = idb } }) in
        Outcomes ctx r.0 r.1
  unfolding calculate_accepted
  accepted-Outcomes quit cancelled batch_count iiss ctx idb last above =
      let started : Ctx = record ctx { accounts = record ctx.accounts { idb = idb } } in
      let ready =
        prepare new_hash zero_hash absorb absorb_hash produce_hash db_count S empty empty_get T V R
          C D iiss idb.info.calculating started in
      let heights = prepare-heights iiss idb.info.calculating started in
      conclude-Outcomes ctx ready idb.info.calculating refl refl (heights.last ∙ last)
        heights.running above _

  refused-Outcomes :
      (reload : Bool) (header : Option ℕ) (ctx : Ctx) (idb : IScoreDb) (status : CalcStatus)
      → status ≢ ok
      → Accepted ctx.accounts.idb reload header idb status
      → Outcomes ctx (record ctx { accounts = record ctx.accounts { idb = idb } }) (refused status)
  refused-Outcomes reload header ctx idb status not_ok (is_dropped e running not_reload same) =
      (not_ok, refl, inl same)
  refused-Outcomes reload header ctx idb status not_ok (is_run h e through names above runs same) =
      absurd (not_ok e)
  refused-Outcomes reload header ctx idb status not_ok (is_refused d o through low idle same) =
      (not_ok, refl, inr idle)

  after-Outcomes :
      (quit : ℕ → ℕ → Bool) (cancelled : Bool) (batch_count : ℕ) (reload : Bool) (header : Option ℕ)
      (iiss : IissData) (ctx : Ctx) (idb : IScoreDb) (status : CalcStatus)
      → Accepted ctx.accounts.idb reload header idb status
      → let r =
          after_acceptance new_hash zero_hash absorb absorb_hash produce_hash db_count S empty
            empty_get T V R C D quit cancelled batch_count iiss ctx
            (idb, status) in
        Outcomes ctx r.0 r.1
  unfolding after_acceptance set_calculating_bh
  after-Outcomes quit cancelled batch_count reload header iiss ctx idb ok (is_dropped e r n s) = cc
  after-Outcomes quit cancelled batch_count reload header iiss ctx idb ok
        (is_run height e through names above runs same) =
      accepted-Outcomes quit cancelled batch_count iiss ctx idb
        (ap (λ (i : IScoreDb). i.info.calc_done) same) (rw same above)
  after-Outcomes quit cancelled batch_count reload header iiss ctx idb ok
        (is_refused d o through low idle same) =
      absurd (o refl)
  after-Outcomes quit cancelled batch_count reload header iiss ctx idb invalid_data h =
      refused-Outcomes reload header ctx idb invalid_data (λ e. cc) h
  after-Outcomes quit cancelled batch_count reload header iiss ctx idb doing h =
      refused-Outcomes reload header ctx idb doing (λ e. cc) h
  after-Outcomes quit cancelled batch_count reload header iiss ctx idb invalid_bh h =
      refused-Outcomes reload header ctx idb invalid_bh (λ e. cc) h
  after-Outcomes quit cancelled batch_count reload header iiss ctx idb duplicate_bh h =
      refused-Outcomes reload header ctx idb duplicate_bh (λ e. cc) h

  -- Every way of a calculation request. One that is refused changes the DB information at most, and
  -- unless that is left alone no calculation runs any more. One that is cancelled takes the code of
  -- the cancellation back and leaves the last calculation and the results as they were, and the
  -- heights still name a calculation that runs. One that ends makes its height the last one, above
  -- the one before, with no calculation that runs, and stores its result under that height and
  -- nothing else.
  pub do_calculate-Outcomes :
      (quit : ℕ → ℕ → Bool) (cancelled : Bool) (batch_count : ℕ) (reload : Bool) (iiss : IissData)
      (ctx : Ctx)
      → let r = request quit cancelled batch_count reload iiss ctx in Outcomes ctx r.0 r.1
  unfolding do_calculate
  do_calculate-Outcomes quit cancelled batch_count reload iiss ctx =
      let (idb, status) = accept_calculate ctx.accounts.idb reload iiss.header in
      after-Outcomes quit cancelled batch_count reload iiss.header iiss ctx idb status
        (accept_calculate_cases ctx.accounts.idb reload iiss.header)
