-- ===== src/Calculate/Calculation/Copies.antt =====
-- The I-Scores after the copies of all sub-DBs.
use rewardcalculator.Base.{
  ℕ, nat_eq, zero, suc, ◌+◌, ◌≤◌, ◌≡◌, ◌≢◌, refl, ◌∙◌, arith, Bool, true, false, Option, none, List,
  [], ◌∷◌, ltb, leb, ◌==◌, ◌&&◌, Bool-cases, inl, inr, All,
}
use rewardcalculator.Base.Int.{ℤ, pos, ◌+ℤ◌, int_laws}
use rewardcalculator.Account.Types.{IScoreData}
use rewardcalculator.Db.Engine.{Engine}
use rewardcalculator.Db.Batch.{Batches}
use rewardcalculator.Calculate.Total.{
  score, Distinct, sum_scores, sum_scores-add, sum_scores-none, total,
}
use rewardcalculator.Calculate.Database.Batched.{result}
use rewardcalculator.Calculate.Database.Carried.{get-calculate_db}
use rewardcalculator.Calculate.Database.Totals.{restricted, AreBelow, AreAmong, calculate_db-total}
use rewardcalculator.Statistics.{Statistics}
use rewardcalculator.Calculate.Calculation.{Input, Copied, calculate_dbs}

unfoldable pub sum_beta3 : List Statistics → ℤ
sum_beta3 [] = pos 0
sum_beta3 (s ∷ rest) = s.beta3 +ℤ sum_beta3 rest

-- `left` sub-DBs from number `i` on.
abbrev pub in_range : (ℕ → ℕ) → ℕ → ℕ → ℕ → Bool
in_range address_index i left a = leb i (address_index a) && ltb (address_index a) (i + left)

-- One sub-DB in front of the others.
in_front :
    (final mid before one more b rest : ℤ)
    → final ≡ mid +ℤ (more +ℤ rest)
    → mid ≡ before +ℤ (one +ℤ b)
    → final ≡ before +ℤ (one +ℤ more +ℤ (b +ℤ rest))
in_front final mid before one more b rest h k = grind (int_laws, h, k)

nothing_added : (t : ℤ) → t ≡ t +ℤ (pos 0 +ℤ pos 0)
nothing_added t = grind int_laws

left_zero : (s : ℤ) → s ≡ pos 0 +ℤ s
left_zero s = grind int_laws

right_zero : (s : ℤ) → s ≡ s +ℤ pos 0
right_zero s = grind int_laws

score-range :
    (address_index : ℕ → ℕ) (i left a : ℕ) (accounts : ℕ → Option IScoreData)
    → score (restricted (in_range address_index i (suc left)) accounts a)
      ≡ score (restricted (λ b. address_index b == i) accounts a)
        +ℤ score (restricted (in_range address_index (i + 1) left) accounts a)
unfolding score
score-range address_index i left a accounts = elim (Bool-cases (address_index a == i)) [
  | inl own ↦
      let inside : in_range address_index i (suc left) a ≡ true = ground arith in
      let later : in_range address_index (i + 1) left a ≡ false = ground arith in
      rw (inside, own, later) (right_zero _)
  | inr other ↦
      let same : in_range address_index i (suc left) a ≡ in_range address_index (i + 1) left a =
        ground arith in
      rw (same, other) (left_zero _)
]

module _ {H : Type 0} (new_hash zero_hash : H) (absorb : H → ℕ → IScoreData → H)
    (absorb_hash : H → H → H) (produce_hash : List (ℕ × IScoreData) → H) (address_index : ℕ → ℕ)
    (G : Engine ℕ IScoreData) (T : Batches G) where
  -- No sub-DB was interrupted.
  abbrev pub AllDone : List (Option H) → Type 0
  AllDone l = All (λ (o : Option H). o ≢ none) l

  abbrev pub copies :
      (ℕ → ℕ → Bool)
      → ℕ
      → Input
      → G.Table
      → ℕ
      → ℕ
      → G.Table
      → Copied new_hash zero_hash absorb absorb_hash produce_hash address_index G T
  copies quit batch_count input query left i calc =
      calculate_dbs new_hash zero_hash absorb absorb_hash produce_hash address_index G T quit
        batch_count input query left i calc

  pub calculate_dbs-total :
      (l : List ℕ) (quit : ℕ → ℕ → Bool) (batch_count : ℕ) (input : Input) (query : G.Table)
      (left i : ℕ) (calc : G.Table)
      → Distinct l
      → AreAmong l (G.get query)
      → AreBelow input.block_height (G.get query)
      → ((a : ℕ) → i ≤ address_index a → G.get calc a ≡ none)
      → AllDone (copies quit batch_count input query left i calc).state_hash_list
      → let r = copies quit batch_count input query left i calc in
        total G l r.table
        ≡ total G l calc
          +ℤ (sum_scores l (restricted (in_range address_index i left) (G.get query))
              +ℤ sum_beta3 r.stats_list)
  unfolding calculate_dbs sum_beta3
  calculate_dbs-total l quit batch_count input query zero i calc d among below fresh done =
      let outside : (a : ℕ) → restricted (in_range address_index i zero) (G.get query) a ≡ none =
        λ a. (let off : in_range address_index i zero a ≡ false = ground arith in rw off refl) in
      rw (sum_scores-none l (restricted (in_range address_index i zero) (G.get query)) outside)
        (nothing_added _)
  calculate_dbs-total l quit batch_count input query (suc left) i calc d among below fresh done =
      let here = λ (a : ℕ). address_index a == i in
      let r =
        result new_hash zero_hash absorb input.candidates input.gvs G T (quit i) batch_count
          input.block_height here query calc in
      let unchanged : (a : ℕ) → i + 1 ≤ address_index a → G.get r.table a ≡ none = λ a above.
        (let other : (address_index a == i) ≡ false = ground (arith, above) in
          get-calculate_db new_hash zero_hash absorb input.candidates input.gvs G T (quit i)
            batch_count input.block_height here query calc done.0 a
          ∙ rw other (fresh a (omega (arith, above)))) in
      rw (sum_scores-add l _ _ _ (λ a. score-range address_index i left a (G.get query))) (
        in_front _ _ _ _ _ _ _
          (calculate_dbs-total l quit batch_count input query left (i + 1) r.table d among below
            unchanged done.1)
          (calculate_db-total new_hash zero_hash absorb input.candidates input.gvs G T l (quit i)
            batch_count input.block_height here query calc d among below
            (λ a own. fresh a (ground (arith, own))) done.0))
