-- ===== src/Calculate/Total.antt =====
-- The I-Scores of a set of accounts, in all. The calculate DB of core/db_account.go, whose sub-DBs
-- hold an account each by the first byte of its address, is one bucket from address to account.
use rewardcalculator.Base.{
  ℕ, nat_eq, ◌≡◌, refl, sym, arith, Bool, true, false, Option, none, some, List, [], ◌∷◌, ◌==◌,
  lookup, DistinctKeys, if◌then◌else◌, Bool-cases, inl, inr,
}
use rewardcalculator.Base.Int.{ℤ, pos, ◌+ℤ◌, int_laws}
use rewardcalculator.Account.Types.{IScoreData}
use rewardcalculator.Db.Engine.{Engine}

unfoldable pub score : Option IScoreData → ℤ
score none = pos 0
score (some ia) = ia.i_score

abbrev pub member : ℕ → List ℕ → Bool
member a [] = false
member a (b ∷ l) = let rest = member a l in if b == a then true else rest

abbrev pub Distinct : List ℕ → Type 0
Distinct [] = Unit
Distinct (a ∷ l) = (member a l ≡ false) × Distinct l

unfoldable pub sum_scores : List ℕ → (ℕ → Option IScoreData) → ℤ
unfolding score
sum_scores [] accounts = pos 0
sum_scores (a ∷ l) accounts = score (accounts a) +ℤ sum_scores l accounts

pub sum_scores-ext :
    (l : List ℕ) (f g : ℕ → Option IScoreData)
    → ((a : ℕ) → f a ≡ g a)
    → sum_scores l f ≡ sum_scores l g
unfolding sum_scores
sum_scores-ext [] f g h = refl
sum_scores-ext (a ∷ l) f g h = rw (h a, sum_scores-ext l f g h)

no_score : pos 0 ≡ pos 0 +ℤ pos 0
no_score = grind int_laws

pub sum_scores-none :
    (l : List ℕ) (f : ℕ → Option IScoreData) → ((a : ℕ) → f a ≡ none) → sum_scores l f ≡ pos 0
unfolding sum_scores score
sum_scores-none [] f h = refl
sum_scores-none (a ∷ l) f h = rw (h a, sum_scores-none l f h) (sym no_score)

interchange : (a b c d : ℤ) → a +ℤ b +ℤ (c +ℤ d) ≡ a +ℤ c +ℤ (b +ℤ d)
interchange a b c d = grind int_laws

-- Accounts whose I-Scores are the sums of two others'.
pub sum_scores-add :
    (l : List ℕ) (f g h : ℕ → Option IScoreData)
    → ((a : ℕ) → score (f a) ≡ score (g a) +ℤ score (h a))
    → sum_scores l f ≡ sum_scores l g +ℤ sum_scores l h
unfolding sum_scores
sum_scores-add [] f g h e = no_score
sum_scores-add (a ∷ l) f g h e = rw (e a, sum_scores-add l f g h e) (interchange _ _ _ _)

-- The I-Scores of the entries of an iteration, each counted by a function.
unfoldable pub sum_entries : (IScoreData → ℤ) → List (ℕ × IScoreData) → ℤ
sum_entries f [] = pos 0
sum_entries f ((a, ia) ∷ m) = f ia +ℤ sum_entries f m

unfoldable pub are_members : List (ℕ × IScoreData) → List ℕ → Bool
are_members [] l = true
are_members ((a, ia) ∷ m) l = let rest = are_members m l in if member a l then rest else false

pub are_members-all :
    (m : List (ℕ × IScoreData)) (l : List ℕ)
    → DistinctKeys m
    → ((a : ℕ) → member a l ≡ false → lookup a m ≡ none)
    → are_members m l ≡ true
unfolding are_members
are_members-all [] l d h = refl
are_members-all ((a, ia) ∷ m) l d h =
    let among : member a l ≡ true = ground (arith, h a) in
    let later : (b : ℕ) → member b l ≡ false → lookup b m ≡ none =
      λ b out. ground (arith, h b out, d.0) in
    rw (among, are_members-all m l d.1 later) refl

abbrev pub counted : (IScoreData → ℤ) → Option IScoreData → ℤ
counted f none = pos 0
counted f (some ia) = f ia

pub sum_found : (IScoreData → ℤ) → List ℕ → List (ℕ × IScoreData) → ℤ
sum_found f [] m = pos 0
sum_found f (a ∷ l) m = counted f (lookup a m) +ℤ sum_found f l m

pub sum_scores-found :
    (f : IScoreData → ℤ) (accounts : ℕ → Option IScoreData) (l : List ℕ) (m : List (ℕ × IScoreData))
    → ((a : ℕ) → score (accounts a) ≡ counted f (lookup a m))
    → sum_scores l accounts ≡ sum_found f l m
unfolding sum_scores sum_found
sum_scores-found f accounts [] m h = refl
sum_scores-found f accounts (a ∷ l) m h = rw (h a, sum_scores-found f accounts l m h)

sum_found-nil : (f : IScoreData → ℤ) (l : List ℕ) → sum_found f l [] ≡ pos 0
unfolding sum_found
sum_found-nil f [] = refl
sum_found-nil f (a ∷ l) = grind (int_laws, sum_found-nil f l)

sum_found-absent :
    (f : IScoreData → ℤ) (l : List ℕ) (k : ℕ) (ia : IScoreData) (m : List (ℕ × IScoreData))
    → member k l ≡ false
    → sum_found f l ((k, ia) ∷ m) ≡ sum_found f l m
unfolding sum_found
sum_found-absent f [] k ia m h = refl
sum_found-absent f (a ∷ l) k ia m h =
    let other : (k == a) ≡ false = ground arith in
    let rest : member k l ≡ false = ground arith in rw (other, sum_found-absent f l k ia m rest)

sum_found-cons :
    (f : IScoreData → ℤ) (l : List ℕ) (k : ℕ) (ia : IScoreData) (m : List (ℕ × IScoreData))
    → Distinct l
    → member k l ≡ true
    → lookup k m ≡ none
    → sum_found f l ((k, ia) ∷ m) ≡ f ia +ℤ sum_found f l m
unfolding sum_found
sum_found-cons f [] k ia m d h fresh = cc
sum_found-cons f (a ∷ l) k ia m d h fresh = elim (Bool-cases (a == k)) [
  | inl own ↦
      let eq : a ≡ k = ground arith in
      let here : (k == a) ≡ true = ground arith in
      let absent : member k l ≡ false = ground (arith, d.0) in
      rw (here, sum_found-absent f l k ia m absent, eq, fresh) (grind int_laws)
  | inr other ↦
      let away : (k == a) ≡ false = ground arith in
      let rest : member k l ≡ true = ground arith in
      rw (away, sum_found-cons f l k ia m d.1 rest fresh) (grind int_laws)
]

-- Over accounts that include those of the entries, each once, the entries add up.
pub sum_found-entries :
    (f : IScoreData → ℤ) (l : List ℕ) (m : List (ℕ × IScoreData))
    → Distinct l
    → DistinctKeys m
    → are_members m l ≡ true
    → sum_found f l m ≡ sum_entries f m
unfolding sum_entries are_members
sum_found-entries f l [] d dm h = sum_found-nil f l
sum_found-entries f l ((k, ia) ∷ m) d dm h =
    let here : member k l ≡ true = ground arith in
    let rest : are_members m l ≡ true = ground arith in
    rw (sum_found-cons f l k ia m d here dm.0, sum_found-entries f l m d dm.1 rest)

-- Two steps that each keep a difference, one after the other.
pub chain : (a b c s t u : ℤ) → b +ℤ s ≡ a +ℤ t → c +ℤ t ≡ b +ℤ u → c +ℤ s ≡ a +ℤ u
chain a b c s t u h k = grind (int_laws, h, k)

module _ (G : Engine ℕ IScoreData) where
  abbrev pub total : List ℕ → G.Table → ℤ
  total l t = sum_scores l (λ a. G.get t a)

  total-absent :
      (l : List ℕ) (t : G.Table) (a : ℕ) (ia : IScoreData)
      → member a l ≡ false
      → total l (G.set t a ia) ≡ total l t
  unfolding sum_scores
  total-absent [] t a ia h = refl
  total-absent (b ∷ l) t a ia h =
      let other : (a == b) ≡ false = ground arith in
      let rest : member a l ≡ false = ground arith in
      rw (G.get-set t a ia b, other, total-absent l t a ia rest)

  -- Writing an account changes the total by the difference of its I-Scores.
  pub total-set :
      (l : List ℕ) (t : G.Table) (a : ℕ) (ia : IScoreData)
      → Distinct l
      → member a l ≡ true
      → total l (G.set t a ia) +ℤ score (G.get t a) ≡ total l t +ℤ ia.i_score
  unfolding sum_scores
  total-set [] t a ia d h = cc
  total-set (b ∷ l) t a ia d h = elim (Bool-cases (b == a)) [
    | inl own ↦
        let eq : b ≡ a = ground arith in
        let here : (a == b) ≡ true = ground arith in
        let absent : member a l ≡ false = ground (arith, d.0) in
        rw (G.get-set t a ia b, here, total-absent l t a ia absent, eq, score) (grind int_laws)
    | inr other ↦
        let away : (a == b) ≡ false = ground arith in
        let rest : member a l ≡ true = ground arith in
        rw (G.get-set t a ia b, away) (grind (int_laws, total-set l t a ia d.1 rest))
  ]
