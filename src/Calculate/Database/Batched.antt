-- ===== src/Calculate/Database/Batched.antt =====
-- A batch and single writes.
use rewardcalculator.Base.{
  ℕ, nat_eq, ◌+◌, ◌<◌, ◌≡◌, refl, sym, ◌∙◌, arith, Bool, true, false, none, List, [], ◌∷◌, ltb,
  ◌==◌, Bool-cases, Option-cases, inl, inr, ◌≢◌,
}
use rewardcalculator.Account.Types.{IScoreData}
use rewardcalculator.Db.Engine.{Engine}
use rewardcalculator.Db.Batch.{Batches}
use rewardcalculator.Context.Governance.{GovernanceVariable}
use rewardcalculator.Context.Candidates.{PRepCandidate}
use rewardcalculator.Calculate.Delegation.{Calculated, calculate_i_score}
use rewardcalculator.Statistics.{increase, field_accounts, uint64}
use rewardcalculator.Calculate.Database.{
  Loop, write, write_calculated, step, run, start, Result, finish, calculate_db,
}

module _ {H : Type 0} (new_hash zero_hash : H) (absorb : H → ℕ → IScoreData → H)
    (candidates : List (ℕ × PRepCandidate)) (gvs : List GovernanceVariable)
    (G : Engine ℕ IScoreData) (T : Batches G) where
  abbrev State : Type 0
  State = Loop new_hash zero_hash absorb candidates gvs G T

  -- `d` writes each account at once and `s` keeps them, to the same effect.
  record Same (s d : State) : Type 0 where
    pub accounts : (j : ℕ) → G.get (T.write s.batch s.table) j ≡ G.get d.table j
    pub count : s.count ≡ d.count
    pub stats : s.stats ≡ d.stats
    pub hash : s.hash ≡ d.hash

  write-Same :
      (batch_count address : ℕ) (ia : IScoreData) (s d : State)
      → 0 < batch_count
      → Same s d
      → Same
          (write new_hash zero_hash absorb candidates gvs G T batch_count address ia s)
          (write new_hash zero_hash absorb candidates gvs G T 0 address ia d)
  unfolding write
  write-Same batch_count address ia s d used same =
      let batched : ltb 0 batch_count ≡ true = ground arith in
      let kept : (j : ℕ)
          → G.get (T.write (T.set s.batch address ia) s.table) j
            ≡ G.get (G.set d.table address ia) j =
        λ j. rw (
          T.get-set s.batch address ia s.table j,
          G.get-set d.table address ia j,
          same.accounts j,
        ) in
      elim (Bool-cases (s.entries == batch_count)) [
        | inl full ↦
            rw (batched, full)
              (record {
                accounts = λ j. T.get-new (T.write (T.set s.batch address ia) s.table) j ∙ kept j;
                count = same.count;
                stats = same.stats;
                hash = same.hash;
              })
        | inr room ↦
            rw (batched, room)
              (record { accounts = kept; count = same.count; stats = same.stats; hash = same.hash })
      ]

  write_calculated-Same :
      (batch_count address : ℕ) (c : Calculated candidates gvs) (s d : State)
      → 0 < batch_count
      → Same s d
      → Same
          (write_calculated new_hash zero_hash absorb candidates gvs G T batch_count address c s)
          (write_calculated new_hash zero_hash absorb candidates gvs G T 0 address c d)
  unfolding write_calculated
  write_calculated-Same batch_count address c s d used same = elim (Option-cases c.reward) [
    | inl nothing ↦ rw nothing same
    | inr (reward, some_reward) ↦
        let w = write-Same batch_count address c.account s d used same in
        rw some_reward (record {
          accounts = w.accounts;
          count = rw w.count;
          stats = rw w.stats;
          hash = rw w.hash;
        })
  ]

  step-Same :
      (batch_count block_height address : ℕ) (ia : IScoreData) (s d : State)
      → 0 < batch_count
      → Same s d
      → Same
          (step new_hash zero_hash absorb candidates gvs G T batch_count block_height address ia s)
          (step new_hash zero_hash absorb candidates gvs G T 0 block_height address ia d)
  unfolding step
  step-Same batch_count block_height address ia s d used same =
      let counted : State → State =
        λ x. record x { stats = (increase x.stats field_accounts (uint64 1)).0 } in
      let w =
        write_calculated-Same batch_count address (calculate_i_score candidates gvs block_height ia)
          (counted s) (counted d) used
          (record {
            accounts = same.accounts;
            count = same.count;
            stats = rw same.stats;
            hash = same.hash;
          }) in
      record { accounts = w.accounts; count = w.count; stats = w.stats; hash = w.hash }

  run-Same :
      (quit : ℕ → Bool) (i batch_count block_height : ℕ) (l : List (ℕ × IScoreData)) (s d : State)
      → 0 < batch_count
      → Same s d
      → let rs =
          run new_hash zero_hash absorb candidates gvs G T quit i batch_count block_height l s in
        let rd = run new_hash zero_hash absorb candidates gvs G T quit i 0 block_height l d in
        Same rs.0 rd.0 × (rs.1 ≡ rd.1)
  unfolding run
  run-Same quit i batch_count block_height [] s d used same = (same, refl)
  run-Same quit i batch_count block_height ((a, ia) ∷ rest) s d used same =
      elim (Bool-cases (quit i)) [
        | inl stop ↦ rw stop (same, refl)
        | inr go ↦ rw go (
            run-Same quit (i + 1) batch_count block_height rest _ _ used
              (step-Same batch_count block_height a ia s d used same))
      ]

  abbrev pub result :
      (ℕ → Bool)
      → ℕ
      → ℕ
      → (ℕ → Bool)
      → G.Table
      → G.Table
      → Result new_hash zero_hash absorb candidates gvs G T
  result quit batch_count block_height in_sub_db read_db write_db =
      calculate_db new_hash zero_hash absorb candidates gvs G T quit batch_count block_height
        in_sub_db read_db write_db

  finish-Same :
      (batch_count : ℕ) (s d : State) (fs fd : Bool)
      → 0 < batch_count
      → Same s d
      → fs ≡ fd
      → let r = finish new_hash zero_hash absorb candidates gvs G T batch_count (s, fs) in
        let r' = finish new_hash zero_hash absorb candidates gvs G T 0 (d, fd) in
        (r.count ≡ r'.count)
        × (r.stats ≡ r'.stats)
        × (r.state_hash ≡ r'.state_hash)
        × ((fd ≡ false) → (j : ℕ) → G.get r.table j ≡ G.get r'.table j)
  finish-Same batch_count s d true true used same e = (refl, same.stats, refl, λ no. cc)
  finish-Same batch_count s d false false used same e =
      let batched : ltb 0 batch_count ≡ true = ground arith in
      (same.count, same.stats, rw (same.hash, same.count) refl, λ _ j. rw batched (same.accounts j))
  finish-Same batch_count s d true false used same e = cc
  finish-Same batch_count s d false true used same e = cc

  pub flag_of_hash :
      (batch_count : ℕ) (s : State) (f : Bool)
      → (finish new_hash zero_hash absorb candidates gvs G T batch_count (s, f)).state_hash ≢ none
      → f ≡ false
  flag_of_hash batch_count s true h = absurd (h refl)
  flag_of_hash batch_count s false h = refl

  -- A call that is not interrupted leaves the same account under every key, and returns the same
  -- count, statistics and state hash, whether it keeps the accounts in batches of any size or
  -- writes them one by one.
  pub calculate_db_batched :
      (quit : ℕ → Bool) (batch_count block_height : ℕ) (in_sub_db : ℕ → Bool)
      (read_db write_db : G.Table)
      → 0 < batch_count
      → (result quit batch_count block_height in_sub_db read_db write_db).state_hash ≢ none
      → (j : ℕ)
      → let r = result quit batch_count block_height in_sub_db read_db write_db in
        let r' = result quit 0 block_height in_sub_db read_db write_db in
        (G.get r.table j ≡ G.get r'.table j)
        × (r.count ≡ r'.count)
        × (r.stats ≡ r'.stats)
        × (r.state_hash ≡ r'.state_hash)
  unfolding calculate_db
  calculate_db_batched quit batch_count block_height in_sub_db read_db write_db used done j =
      let entries = G.iterate read_db in_sub_db in
      let begin = start new_hash zero_hash absorb candidates gvs G T write_db in
      let (same, flag) =
        run-Same quit 0 batch_count block_height entries begin begin used
          (record { accounts = T.get-new write_db; count = refl; stats = refl; hash = refl }) in
      let batched =
        run new_hash zero_hash absorb candidates gvs G T quit 0 batch_count block_height entries
          begin in
      let end = finish-Same batch_count _ _ batched.1 _ used same flag in
      let through = sym flag ∙ flag_of_hash batch_count batched.0 batched.1 done in
      (end.3 through j, end.0, end.1, end.2)
