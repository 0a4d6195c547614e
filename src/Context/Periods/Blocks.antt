-- ===== src/Context/Periods/Blocks.antt =====
-- The loop over the periods of a list of items, against the blocks one by one.
use rewardcalculator.Base.{
  ℕ, zero, suc, ◌+◌, ◌-◌, ◌*◌, ◌≤◌, ◌<◌, max, min, ◌≡◌, refl, Option, none, some, List, [], ◌∷◌,
  ltb, leb, arith, ◌&&◌, if◌then◌else◌, Bool-cases, Option-cases, inl, inr, ◌≢◌,
}
use rewardcalculator.Context.Periods.{get_by_block_height, IsAbove, IsAscending, period_of}

-- The sum of a function over the `n` blocks after `start`.
unfoldable pub sum_blocks : (ℕ → ℕ) → ℕ → ℕ → ℕ
sum_blocks f start zero = 0
sum_blocks f start (suc n) = sum_blocks f start n + f (start + suc n)

sum_blocks-add :
    (f g h : ℕ → ℕ) (start n : ℕ)
    → ((b : ℕ) → start < b → b ≤ start + n → f b ≡ g b + h b)
    → sum_blocks f start n ≡ sum_blocks g start n + sum_blocks h start n
unfolding sum_blocks
sum_blocks-add f g h start zero e = omega arith
sum_blocks-add f g h start (suc n) e = omega (
  arith,
  sum_blocks-add f g h start n (λ b lt le. e b lt (omega arith)),
  e (start + suc n) (omega arith) (omega arith),
)

sum_blocks-zero : (start n : ℕ) → sum_blocks (λ _. 0) start n ≡ 0
unfolding sum_blocks
sum_blocks-zero start zero = refl
sum_blocks-zero start (suc n) = omega (arith, sum_blocks-zero start n)

abbrev in_range : ℕ → ℕ → ℕ → ℕ → ℕ
in_range v lo hi b = if ltb lo b && leb b hi then v else 0

overlap : ℕ → ℕ → ℕ → ℕ → ℕ
overlap lo hi start n = min hi (start + n) - max lo start

overlap-suc :
    (lo hi start n : ℕ)
    → overlap lo hi start (suc n) ≡ overlap lo hi start n + in_range 1 lo hi (start + suc n)
unfolding overlap
overlap-suc lo hi start n = ground arith

in_range-mul : (v lo hi b : ℕ) → in_range v lo hi b ≡ in_range 1 lo hi b * v
in_range-mul v lo hi b = elim (Bool-cases (ltb lo b && leb b hi)) [
  | inl inside ↦ rw inside (omega arith)
  | inr outside ↦ rw outside (omega arith)
]

sum_blocks-in_range :
    (v lo hi start n : ℕ) → sum_blocks (in_range v lo hi) start n ≡ overlap lo hi start n * v
unfolding sum_blocks
sum_blocks-in_range v lo hi start zero =
    let none_yet : overlap lo hi start 0 ≡ 0 = unfold overlap in omega arith in
    rw none_yet (omega arith)
sum_blocks-in_range v lo hi start (suc n) =
    rw
      (
        overlap-suc lo hi start n,
        sum_blocks-in_range v lo hi start n,
        in_range-mul v lo hi (start + suc n),
      )
      (omega arith)

module _ {A : Type 0} (height : A → ℕ) (weight : A → ℕ) where
  -- The number of blocks of each period times the weight of its item, in all.
  unfoldable pub sum_periods : ℕ → ℕ → List A → ℕ
  sum_periods start end [] = 0
  sum_periods start end (a ∷ l) = elim (period_of height start end a l) as (λ _. ℕ) [
    | none ↦ sum_periods start end l
    | some (s, e) ↦ (e - s) * weight a + sum_periods start end l
  ]

  abbrev weight_of : Option A → ℕ
  weight_of none = 0
  weight_of (some a) = weight a

  -- The weight of the item that a block finds.
  abbrev pub weight_at : List A → ℕ → ℕ
  weight_at l block_height = weight_of (get_by_block_height height block_height l)

  last_block : ℕ → List A → ℕ
  last_block end [] = end
  last_block end (b ∷ l) = height b

  none_found :
      (k j : ℕ) (l : List A)
      → IsAbove height k l
      → j ≤ k + 1
      → get_by_block_height height j l ≡ none
  unfolding get_by_block_height
  none_found k j [] h le = refl
  none_found k j (a ∷ l) h le = ground (arith, none_found k j l h.1 le)

  found_above :
      (j : ℕ) (b : A) (l : List A) → height b < j → get_by_block_height height j (b ∷ l) ≢ none
  unfolding get_by_block_height
  found_above j b l lt = ground arith

  -- One item more at the front adds its weight to the blocks of its period.
  weight_at-cons :
      (a : A) (l : List A) (end b : ℕ)
      → IsAscending height (a ∷ l)
      → b ≤ end
      → weight_at (a ∷ l) b ≡ weight_at l b + in_range (weight a) (height a) (last_block end l) b
  unfolding get_by_block_height last_block
  weight_at-cons a [] end b up le = ground arith
  weight_at-cons a (c ∷ l) end b up le =
      ground (arith, found_above b c l, none_found (height c) b l up.1.0)

  abbrev blocks_of : Option (ℕ × ℕ) → ℕ
  blocks_of none = 0
  blocks_of (some (s, e)) = e - s

  blocks_of-period_of :
      (start end : ℕ) (a : A) (l : List A)
      → blocks_of (period_of height start end a l)
        ≡ overlap (height a) (last_block end l) start (end - start)
  unfolding period_of overlap last_block
  blocks_of-period_of start end a [] = ground arith
  blocks_of-period_of start end a (c ∷ l) = ground arith

  sum_periods-period_of :
      (start end : ℕ) (a : A) (l : List A)
      → sum_periods start end (a ∷ l)
        ≡ blocks_of (period_of height start end a l) * weight a + sum_periods start end l
  unfolding sum_periods
  sum_periods-period_of start end a l = elim (Option-cases (period_of height start end a l)) [
    | inl outside ↦ rw (outside, sum_periods) (omega arith)
    | inr ((s, e), inside) ↦ rw (inside, sum_periods)
  ]

  sum_periods-cons :
      (start end : ℕ) (a : A) (l : List A)
      → sum_periods start end (a ∷ l)
        ≡ overlap (height a) (last_block end l) start (end - start) * weight a
          + sum_periods start end l
  sum_periods-cons start end a l =
      rw (← blocks_of-period_of start end a l) (sum_periods-period_of start end a l)

  -- Over rising heights, the periods between two block heights weigh what their blocks weigh one
  -- by one, each with the item that it finds.
  pub sum_periods-eq-sum_blocks :
      (start end : ℕ) (l : List A)
      → IsAscending height l
      → sum_periods start end l ≡ sum_blocks (weight_at l) start (end - start)
  unfolding sum_periods get_by_block_height
  sum_periods-eq-sum_blocks start end [] up = rw (sum_blocks-zero start (end - start))
  sum_periods-eq-sum_blocks start end (a ∷ l) up = omega (
    arith,
    sum_periods-cons start end a l,
    sum_periods-eq-sum_blocks start end l up.1,
    sum_blocks-in_range (weight a) (height a) (last_block end l) start (end - start),
    sum_blocks-add (weight_at (a ∷ l)) (weight_at l)
        (in_range (weight a) (height a) (last_block end l)) start (end - start)
        (λ b lt le. weight_at-cons a l end b up (omega arith)),
  )
