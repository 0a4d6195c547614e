-- ===== src/Calculate/Database/Totals.antt =====
-- The I-Scores that calculateDB writes, all together.
use rewardcalculator.Base.{
  ℕ, nat_eq, ◌<◌, ◌≡◌, ◌≢◌, refl, sym, ◌∙◌, arith, Bool, true, false, Option, none, some, List, leb,
  ◌==◌, if◌then◌else◌, Bool-cases, Option-cases, inl, inr, lookup,
}
use rewardcalculator.Base.Int.{ℤ, pos, ◌+ℤ◌, int_laws}
use rewardcalculator.Account.Types.{IScoreData}
use rewardcalculator.Db.Engine.{Engine}
use rewardcalculator.Db.Batch.{Batches}
use rewardcalculator.Context.Governance.{GovernanceVariable}
use rewardcalculator.Context.Candidates.{PRepCandidate}
use rewardcalculator.Calculate.Delegation.{calculate_to, calculate_i_score}
use rewardcalculator.Calculate.Total.{
  score, member, Distinct, sum_scores, sum_scores-add, total, sum_entries, are_members,
  are_members-all, sum_found-entries, sum_scores-found, counted,
}
use rewardcalculator.Calculate.Database.{Result}
use rewardcalculator.Calculate.Database.Batched.{result}
use rewardcalculator.Calculate.Database.Carried.{
  old_score, new_score, score-counted, carried, found, carries,
}

from_zero : (b os ns w : ℤ) → b +ℤ os ≡ pos 0 +ℤ ns → ns +ℤ w ≡ w +ℤ (os +ℤ b)
from_zero b os ns w h = grind (int_laws, h)

none-some : (ia : IScoreData) → none ≢ some ia
none-some ia e = cc

-- The accounts of a sub-DB.
abbrev pub restricted : (ℕ → Bool) → (ℕ → Option IScoreData) → ℕ → Option IScoreData
restricted in_sub_db accounts a = if in_sub_db a then accounts a else none

same_branch : (b : Bool) → restricted (λ _. b) (λ _. none) 0 ≡ none
same_branch true = refl
same_branch false = refl

-- The calculation to a height has not reached the accounts yet.
abbrev pub AreBelow : ℕ → (ℕ → Option IScoreData) → Type 0
AreBelow block_height accounts =
    (a : ℕ) → (ia : IScoreData) → accounts a ≡ some ia → ia.block_height < block_height

-- No account is outside the list.
abbrev pub AreAmong : List ℕ → (ℕ → Option IScoreData) → Type 0
AreAmong l accounts = (a : ℕ) → member a l ≡ false → accounts a ≡ none

module _ (candidates : List (ℕ × PRepCandidate)) (gvs : List GovernanceVariable) where
  reward-below :
      (block_height : ℕ) (ia : IScoreData)
      → ia.block_height < block_height
      → (calculate_i_score candidates gvs block_height ia).reward ≢ none
  unfolding calculate_i_score calculate_to
  reward-below block_height ia h =
      let nonzero : (block_height == 0) ≡ false = ground arith in
      let below : leb block_height ia.block_height ≡ false = ground arith in
      rw (nonzero, below) (λ e. cc)

  score-carried :
      (block_height : ℕ) (ia : IScoreData)
      → ia.block_height < block_height
      → score (carried candidates gvs block_height ia none)
        ≡ new_score candidates gvs block_height ia
  unfolding score
  score-carried block_height ia h =
      let c = calculate_i_score candidates gvs block_height ia in
      elim (Option-cases c.reward) [
        | inl nothing ↦ absurd (reward-below block_height ia h nothing)
        | inr (reward, some_reward) ↦
            let written : carried candidates gvs block_height ia none ≡ some c.account =
              rw (some_reward, carried) refl in
            rw written refl
      ]

  -- What one account of the iteration adds to the calculate DB.
  abbrev NewBelow : ℕ → Option IScoreData → Option IScoreData → Type 0
  NewBelow block_height o old =
      (ia : IScoreData) → o ≡ some ia → (ia.block_height < block_height) × (old ≡ none)

  score-found :
      (block_height : ℕ) (o : Option IScoreData)
      → ((ia : IScoreData) → o ≡ some ia → ia.block_height < block_height)
      → score (found candidates gvs block_height o none)
        ≡ counted (new_score candidates gvs block_height) o
  unfolding score
  score-found block_height none h = refl
  score-found block_height (some ia) h = score-carried block_height ia (h ia refl)

  score-found_over :
      (block_height : ℕ) (o old : Option IScoreData)
      → NewBelow block_height o old
      → score (found candidates gvs block_height o old)
        ≡ score (found candidates gvs block_height o none) +ℤ score old
  unfolding score
  score-found_over block_height none old h = grind int_laws
  score-found_over block_height (some ia) old h = rw ((h ia refl).1) (grind int_laws)

module _ {H : Type 0} (new_hash zero_hash : H) (absorb : H → ℕ → IScoreData → H)
    (candidates : List (ℕ × PRepCandidate)) (gvs : List GovernanceVariable)
    (G : Engine ℕ IScoreData) (T : Batches G) where
  abbrev res :
      (ℕ → Bool)
      → ℕ
      → ℕ
      → (ℕ → Bool)
      → G.Table
      → G.Table
      → Result new_hash zero_hash absorb candidates gvs G T
  res quit batch_count block_height in_sub_db read_db write_db =
      result new_hash zero_hash absorb candidates gvs G T quit batch_count block_height in_sub_db
        read_db write_db

  new_below :
      (block_height : ℕ) (in_sub_db : ℕ → Bool) (read_db write_db : G.Table) (a : ℕ)
      → AreBelow block_height (G.get read_db)
      → ((b : ℕ) → in_sub_db b ≡ true → G.get write_db b ≡ none)
      → NewBelow candidates gvs block_height
          (lookup a (G.iterate read_db in_sub_db))
          (G.get write_db a)
  new_below block_height in_sub_db read_db write_db a below fresh ia at =
      let read : restricted in_sub_db (G.get read_db) a ≡ some ia =
        sym (G.lookup-iterate read_db in_sub_db a) ∙ at in
      elim (Bool-cases (in_sub_db a)) [
        | inl inside ↦
            let own : restricted in_sub_db (G.get read_db) a ≡ G.get read_db a =
              rw (inside, restricted) refl in
            (below a ia (sym own ∙ read), fresh a inside)
        | inr outside ↦
            let other : restricted in_sub_db (G.get read_db) a ≡ none =
              rw (outside, restricted) refl in
            absurd (none-some ia (sym other ∙ read))
      ]

  -- Where the accounts of the sub-DB are below the block height and the calculate DB has none of
  -- them, a call that is not interrupted adds to the I-Scores of the calculate DB those of the
  -- sub-DB and the rewards that its statistics report.
  pub calculate_db-total :
      (l : List ℕ) (quit : ℕ → Bool) (batch_count block_height : ℕ) (in_sub_db : ℕ → Bool)
      (read_db write_db : G.Table)
      → Distinct l
      → AreAmong l (G.get read_db)
      → AreBelow block_height (G.get read_db)
      → ((a : ℕ) → in_sub_db a ≡ true → G.get write_db a ≡ none)
      → (res quit batch_count block_height in_sub_db read_db write_db).state_hash ≢ none
      → let r = res quit batch_count block_height in_sub_db read_db write_db in
        total G l r.table
        ≡ total G l write_db
          +ℤ (sum_scores l (restricted in_sub_db (G.get read_db)) +ℤ r.stats.beta3)
  calculate_db-total l quit batch_count block_height in_sub_db read_db write_db d among below fresh
        done =
      let m = G.iterate read_db in_sub_db in
      let dm = G.iterate-DistinctKeys read_db in_sub_db in
      let r = res quit batch_count block_height in_sub_db read_db write_db in
      let (all, beta3) =
        carries new_hash zero_hash absorb candidates gvs G T quit batch_count block_height in_sub_db
          read_db write_db done in
      let old_sum = sum_scores l (restricted in_sub_db (G.get read_db)) in
      let at = λ (a : ℕ). new_below block_height in_sub_db read_db write_db a below fresh in
      let new = λ (a : ℕ). found candidates gvs block_height (lookup a m) none in
      let listed : are_members m l ≡ true = are_members-all m l dm (λ a out.
        rw (G.lookup-iterate read_db in_sub_db a, among a out) (same_branch (in_sub_db a))) in
      let split : total G l r.table ≡ sum_scores l new +ℤ total G l write_db =
        sum_scores-add l (λ a. G.get r.table a) new (λ a. G.get write_db a)
          (λ a. rw (all a) (
            score-found_over candidates gvs block_height (lookup a m) (G.get write_db a) (at a))) in
      let new_sum : sum_scores l new ≡ sum_entries (new_score candidates gvs block_height) m =
        sum_scores-found (new_score candidates gvs block_height) new l m
          (λ a. score-found candidates gvs block_height (lookup a m) (λ ia is. (at a ia is).0))
        ∙ sum_found-entries (new_score candidates gvs block_height) l m d dm listed in
      let before : old_sum ≡ sum_entries old_score m =
        sum_scores-found old_score (restricted in_sub_db (G.get read_db)) l m
          (λ a. rw (← G.lookup-iterate read_db in_sub_db a) (score-counted (lookup a m)))
        ∙ sum_found-entries old_score l m d dm listed in
      rw (split, new_sum, before) (from_zero _ _ _ _ beta3)
