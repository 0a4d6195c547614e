-- ===== src/Calculate/Database/Carried.antt =====
-- The accounts of the query DB and those of the calculate DB after the copy.
use rewardcalculator.Base.{
  ℕ, nat_eq, zero, suc, ◌+◌, ◌≡◌, ◌≢◌, refl, ◌∙◌, arith, Bool, true, false, Option, none, some,
  List, [], ◌∷◌, ◌==◌, if◌then◌else◌, Bool-cases, Option-cases, inl, inr, lookup, DistinctKeys,
}
use rewardcalculator.Base.Int.{ℤ, pos, ◌+ℤ◌, int_laws}
use rewardcalculator.Account.Types.{IScoreData}
use rewardcalculator.Db.Engine.{Engine}
use rewardcalculator.Db.Batch.{Batches}
use rewardcalculator.Context.Governance.{GovernanceVariable}
use rewardcalculator.Context.Candidates.{PRepCandidate}
use rewardcalculator.Calculate.Delegation.{calculate_i_score}
use rewardcalculator.Calculate.Total.{score, sum_entries, counted}
use rewardcalculator.Calculate.Transactions.{add_reward}
use rewardcalculator.Calculate.Transactions.Effect.{add_reward-calculate_i_score}
use rewardcalculator.Statistics.{increase, set, get_field}
use rewardcalculator.Calculate.Database.{
  Loop, write, write_calculated, step, run, start, Result, finish, calculate_db,
}
use rewardcalculator.Calculate.Database.Batched.{result, flag_of_hash, calculate_db_batched}

abbrev pub old_score : IScoreData → ℤ
old_score ia = ia.i_score

pub score-counted : (o : Option IScoreData) → score o ≡ counted old_score o
unfolding score
score-counted none = refl
score-counted (some ia) = refl

-- One entry in front of a sum.
shift :
    (end b r s old new os ns : ℤ)
    → end +ℤ os ≡ b +ℤ ns
    → b ≡ r
    → r +ℤ old ≡ s +ℤ new
    → end +ℤ (old +ℤ os) ≡ s +ℤ (new +ℤ ns)
shift end b r s old new os ns h e k = grind (int_laws, h, e, k)

module _ (candidates : List (ℕ × PRepCandidate)) (gvs : List GovernanceVariable) where
  -- What becomes of an account that the copy meets, over what the calculate DB has for it.
  abbrev pub carried : ℕ → IScoreData → Option IScoreData → Option IScoreData
  carried block_height ia old =
      elim (calculate_i_score candidates gvs block_height ia).reward as (λ _. Option IScoreData) [
        | none ↦ old
        | some _ ↦ some (calculate_i_score candidates gvs block_height ia).account
      ]

  abbrev pub new_score : ℕ → IScoreData → ℤ
  new_score block_height ia = (calculate_i_score candidates gvs block_height ia).account.i_score

  abbrev pub found : ℕ → Option IScoreData → Option IScoreData → Option IScoreData
  found block_height none old = old
  found block_height (some ia) old = carried block_height ia old

  found-cons :
      (block_height a j : ℕ) (ia : IScoreData) (rest : List (ℕ × IScoreData))
      (old : Option IScoreData)
      → lookup a rest ≡ none
      → found block_height (lookup j rest) (if a == j then carried block_height ia old else old)
        ≡ found block_height (lookup j ((a, ia) ∷ rest)) old
  found-cons block_height a j ia rest old fresh = elim (Bool-cases (a == j)) [
    | inl own ↦
        let eq : a ≡ j = ground arith in
        let absent : lookup j rest ≡ none = ground (arith, fresh) in rw (own, absent) refl
    | inr other ↦ rw other refl
  ]

module _ {H : Type 0} (new_hash zero_hash : H) (absorb : H → ℕ → IScoreData → H)
    (candidates : List (ℕ × PRepCandidate)) (gvs : List GovernanceVariable)
    (G : Engine ℕ IScoreData) (T : Batches G) where
  abbrev State : Type 0
  State = Loop new_hash zero_hash absorb candidates gvs G T

  abbrev next : ℕ → ℕ → IScoreData → State → State
  next block_height address ia s =
      step new_hash zero_hash absorb candidates gvs G T 0 block_height address ia s

  get-step :
      (block_height address : ℕ) (ia : IScoreData) (s : State) (j : ℕ)
      → G.get (next block_height address ia s).table j ≡ (
          if address == j
          then carried candidates gvs block_height ia (G.get s.table j)
          else G.get s.table j)
  unfolding step write_calculated write
  get-step block_height address ia s j =
      let c = calculate_i_score candidates gvs block_height ia in
      elim (Option-cases c.reward) [
        | inl nothing ↦
            let kept : carried candidates gvs block_height ia (G.get s.table j) ≡ G.get s.table j =
              rw (nothing, carried) refl in
            rw (nothing, kept) (ground arith)
        | inr (reward, some_reward) ↦
            let written : carried candidates gvs block_height ia (G.get s.table j)
                ≡ some c.account =
              rw (some_reward, carried) refl in
            rw (some_reward, written) (G.get-set s.table address c.account j)
      ]

  beta3-step :
      (block_height address : ℕ) (ia : IScoreData) (s : State)
      → (next block_height address ia s).stats.beta3
        ≡ add_reward (calculate_i_score candidates gvs block_height ia).reward s.stats.beta3
  unfolding step write_calculated write increase get_field set
  beta3-step block_height address ia s =
      elim (Option-cases (calculate_i_score candidates gvs block_height ia).reward) [
        | inl nothing ↦ rw nothing refl
        | inr (reward, some_reward) ↦ rw some_reward refl
      ]

  abbrev go : (ℕ → Bool) → ℕ → ℕ → List (ℕ × IScoreData) → State → State × Bool
  go quit i block_height l s =
      run new_hash zero_hash absorb candidates gvs G T quit i 0 block_height l s

  get-run :
      (quit : ℕ → Bool) (i block_height : ℕ) (l : List (ℕ × IScoreData)) (s : State) (j : ℕ)
      → DistinctKeys l
      → (go quit i block_height l s).1 ≡ false
      → G.get (go quit i block_height l s).0.table j
        ≡ found candidates gvs block_height (lookup j l) (G.get s.table j)
  unfolding run
  get-run quit i block_height [] s j d h = refl
  get-run quit i block_height ((a, ia) ∷ rest) s j d h = elim (Bool-cases (quit i)) [
    | inl stop ↦ ground (arith, stop, h)
    | inr on ↦
        let rest_done : (go quit (i + 1) block_height rest (next block_height a ia s)).1 ≡ false =
          ground (arith, on, h) in
        rw
          (
            on,
            get-run quit (i + 1) block_height rest (next block_height a ia s) j d.1 rest_done,
            get-step block_height a ia s j,
          )
          (found-cons candidates gvs block_height a j ia rest (G.get s.table j) d.0)
  ]

  beta3-run :
      (quit : ℕ → Bool) (i block_height : ℕ) (l : List (ℕ × IScoreData)) (s : State)
      → (go quit i block_height l s).1 ≡ false
      → (go quit i block_height l s).0.stats.beta3 +ℤ sum_entries old_score l
        ≡ s.stats.beta3 +ℤ sum_entries (new_score candidates gvs block_height) l
  unfolding run sum_entries
  beta3-run quit i block_height [] s h = refl
  beta3-run quit i block_height ((a, ia) ∷ rest) s h = elim (Bool-cases (quit i)) [
    | inl stop ↦ ground (arith, stop, h)
    | inr on ↦
        let s' = next block_height a ia s in
        let rest_done : (go quit (i + 1) block_height rest s').1 ≡ false = ground (arith, on, h) in
        rw on (
          shift _ _ _ _ _ _ _ _ (beta3-run quit (i + 1) block_height rest s' rest_done)
            (beta3-step block_height a ia s)
            (add_reward-calculate_i_score candidates gvs block_height ia s.stats.beta3))
  ]

  abbrev res :
      (ℕ → Bool)
      → ℕ
      → ℕ
      → (ℕ → Bool)
      → G.Table
      → G.Table
      → Result new_hash zero_hash absorb candidates gvs G T
  res quit batch_count block_height in_sub_db read_db write_db =
      result new_hash zero_hash absorb candidates gvs G T quit batch_count block_height in_sub_db
        read_db write_db

  direct_end :
      (s : State) (f : Bool)
      → f ≡ false
      → let r = finish new_hash zero_hash absorb candidates gvs G T 0 (s, f) in
        (r.table ≡ s.table) × (r.stats ≡ s.stats)
  direct_end s true h = cc
  direct_end s false h = (refl, refl)

  -- One by one.
  direct-carries :
      (quit : ℕ → Bool) (block_height : ℕ) (in_sub_db : ℕ → Bool) (read_db write_db : G.Table)
      → (res quit 0 block_height in_sub_db read_db write_db).state_hash ≢ none
      → let r = res quit 0 block_height in_sub_db read_db write_db in
        ((j : ℕ)
          → G.get r.table j
            ≡ found candidates gvs block_height
                (lookup j (G.iterate read_db in_sub_db))
                (G.get write_db j))
        × (r.stats.beta3 +ℤ sum_entries old_score (G.iterate read_db in_sub_db)
            ≡ pos 0
              +ℤ sum_entries (new_score candidates gvs block_height) (G.iterate read_db in_sub_db))
  unfolding calculate_db
  direct-carries quit block_height in_sub_db read_db write_db done =
      let entries = G.iterate read_db in_sub_db in
      let begin = start new_hash zero_hash absorb candidates gvs G T write_db in
      let ran = go quit 0 block_height entries begin in
      let on = flag_of_hash new_hash zero_hash absorb candidates gvs G T 0 ran.0 ran.1 done in
      let (table, stats) = direct_end ran.0 ran.1 on in
      (
        λ j. rw table (
            get-run quit 0 block_height entries begin j (G.iterate-DistinctKeys read_db in_sub_db)
              on),
        rw stats (beta3-run quit 0 block_height entries begin on),
      )

  pub carries :
      (quit : ℕ → Bool) (batch_count block_height : ℕ) (in_sub_db : ℕ → Bool)
      (read_db write_db : G.Table)
      → (res quit batch_count block_height in_sub_db read_db write_db).state_hash ≢ none
      → let r = res quit batch_count block_height in_sub_db read_db write_db in
        ((j : ℕ)
          → G.get r.table j
            ≡ found candidates gvs block_height
                (lookup j (G.iterate read_db in_sub_db))
                (G.get write_db j))
        × (r.stats.beta3 +ℤ sum_entries old_score (G.iterate read_db in_sub_db)
            ≡ pos 0
              +ℤ sum_entries (new_score candidates gvs block_height) (G.iterate read_db in_sub_db))
  carries quit zero block_height in_sub_db read_db write_db done =
      direct-carries quit block_height in_sub_db read_db write_db done
  carries quit (suc n) block_height in_sub_db read_db write_db done =
      let same = λ (j : ℕ).
        calculate_db_batched new_hash zero_hash absorb candidates gvs G T quit (suc n) block_height
          in_sub_db read_db write_db (omega arith) done j in
      let direct =
        direct-carries quit block_height in_sub_db read_db write_db (rw⁻¹ (same 0).3 done) in
      (λ j. (same j).0 ∙ direct.0 j, rw (same 0).2 direct.1)

  -- A call that is not interrupted writes every account of the sub-DB for which there is a reward,
  -- which may be zero, as the calculation makes of it, and leaves every other key of the calculate
  -- DB as it was.
  pub get-calculate_db :
      (quit : ℕ → Bool) (batch_count block_height : ℕ) (in_sub_db : ℕ → Bool)
      (read_db write_db : G.Table)
      → (res quit batch_count block_height in_sub_db read_db write_db).state_hash ≢ none
      → (j : ℕ)
      → G.get (res quit batch_count block_height in_sub_db read_db write_db).table j
        ≡ found candidates gvs block_height
            (if in_sub_db j then G.get read_db j else none)
            (G.get write_db j)
  get-calculate_db quit batch_count block_height in_sub_db read_db write_db done j =
      rw (← G.lookup-iterate read_db in_sub_db j)
        ((carries quit batch_count block_height in_sub_db read_db write_db done).0 j)
