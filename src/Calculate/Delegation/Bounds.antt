-- ===== src/Calculate/Delegation/Bounds.antt =====
-- The reward of a delegation against its blocks one by one.
use rewardcalculator.Base.{
  ℕ, zero, suc, nat_eq, ◌+◌, ◌-◌, ◌*◌, ◌/◌, ◌≤◌, ◌<◌, ◌≡◌, refl, max, min, arith, Bool, ltb, leb,
  ◌==◌, ◌||◌, if◌then◌else◌, ◌&&◌, List, [], ◌∷◌, length, none, some, Option-cases, inl, inr,
}
use rewardcalculator.Base.Int.{pos, ◌+ℤ◌, mul_pos, div_pos_lem}
use rewardcalculator.Context.Periods.{IsAscending, period_of}
use rewardcalculator.Context.Periods.Blocks.{
  sum_blocks, sum_periods, weight_at, sum_periods-eq-sum_blocks,
}
use rewardcalculator.Context.Governance.{GovernanceVariable, gv_height}
use rewardcalculator.Context.Candidates.{PRepCandidate}
use rewardcalculator.Calculate.Delegation.{
  reward_divider, clip_start, clip_end, reward_of, add_rewards, calculate_delegation_reward,
}
use rewardcalculator.Calculate.Delegation.Clip.{sum_blocks-clip}

abbrev gv_rate : GovernanceVariable → ℕ
gv_rate gv = gv.reward_rep

abbrev is_active : PRepCandidate → ℕ → Bool
is_active p_rep b = ltb p_rep.start b && (p_rep.end == 0 || leb b p_rep.end)

-- What a delegated unit earns for a block: the reward rate that the block finds, if the P-Rep was
-- a candidate then.
pub rate : List GovernanceVariable → PRepCandidate → ℕ → ℕ
rate gvs p_rep b = if is_active p_rep b then weight_at gv_height gv_rate gvs b else 0

-- The sum of the rewards, each rounded down.
rewards : ℕ → ℕ → ℕ → List GovernanceVariable → ℕ
rewards start end d [] = 0
rewards start end d (gv ∷ rest) = elim (period_of gv_height start end gv rest) as (λ _. ℕ) [
  | none ↦ rewards start end d rest
  | some (s, e) ↦ d * (e - s) * gv.reward_rep / reward_divider + rewards start end d rest
]

reward_of_pos :
    (d n : ℕ) (gv : GovernanceVariable)
    → reward_of (pos d) n gv ≡ pos (d * n * gv.reward_rep / reward_divider)
unfolding reward_of
reward_of_pos d n gv =
    rw (
      mul_pos d n,
      mul_pos (d * n) gv.reward_rep,
      div_pos_lem (d * n * gv.reward_rep) reward_divider,
    )

add_pos : (a b : ℕ) → pos a +ℤ pos b ≡ pos (a + b)
unfolding ◌+ℤ◌
add_pos a b = ground arith

add_rewards_pos :
    (start end d t : ℕ) (gvs : List GovernanceVariable)
    → add_rewards start end (pos d) (pos t) gvs ≡ pos (t + rewards start end d gvs)
unfolding add_rewards rewards
add_rewards_pos start end d t [] = ground arith
add_rewards_pos start end d t (gv ∷ rest) =
    elim (Option-cases (period_of gv_height start end gv rest)) [
      | inl outside ↦ rw (outside, add_rewards, rewards) (add_rewards_pos start end d t rest)
      | inr ((s, e), inside) ↦
          rw
            (
              inside,
              add_rewards,
              rewards,
              reward_of_pos d (e - s) gv,
              add_pos t (d * (e - s) * gv.reward_rep / reward_divider),
              add_rewards_pos start end d (t + d * (e - s) * gv.reward_rep / reward_divider) rest,
            )
            (ground arith)
    ]

rewards_bounds :
    (start end d : ℕ) (gvs : List GovernanceVariable)
    → (rewards start end d gvs * reward_divider ≤ d * sum_periods gv_height gv_rate start end gvs)
      × (d * sum_periods gv_height gv_rate start end gvs
          ≤ rewards start end d gvs * reward_divider + length gvs * (reward_divider - 1))
unfolding rewards sum_periods
rewards_bounds start end d [] = (omega arith, omega arith)
rewards_bounds start end d (gv ∷ rest) =
    let rec = rewards_bounds start end d rest in
    elim (Option-cases (period_of gv_height start end gv rest)) [
      | inl outside ↦
          rw (outside, rewards, sum_periods) (omega (arith, rec.0), omega (arith, rec.1))
      | inr ((s, e), inside) ↦
          rw (inside, rewards, sum_periods) (omega (arith, rec.0), omega (arith, rec.1))
    ]

-- Where the P-Rep is active, the clipped blocks are those of its term.
sum_blocks-ext :
    (f g : ℕ → ℕ) (start n : ℕ)
    → ((b : ℕ) → start < b → b ≤ start + n → f b ≡ g b)
    → sum_blocks f start n ≡ sum_blocks g start n
unfolding sum_blocks
sum_blocks-ext f g start zero h = refl
sum_blocks-ext f g start (suc n) h = omega (
  arith,
  sum_blocks-ext f g start n (λ b lt le. h b lt (omega arith)),
  h (start + suc n) (omega arith) (omega arith),
)

last_of : PRepCandidate → ℕ → ℕ
last_of p_rep last = if p_rep.end == 0 then last else p_rep.end

sum_blocks-rate :
    (gvs : List GovernanceVariable) (p_rep : PRepCandidate) (start end : ℕ)
    → sum_blocks (rate gvs p_rep) start (end - start)
      ≡ sum_blocks
          (weight_at gv_height gv_rate gvs)
          (clip_start start p_rep)
          (clip_end end p_rep - clip_start start p_rep)
unfolding rate last_of
sum_blocks-rate gvs p_rep start end =
    let f = weight_at gv_height gv_rate gvs in
    let hi = last_of p_rep end in
    let spans : sum_blocks (rate gvs p_rep) start (end - start)
        ≡ sum_blocks (λ b. if ltb p_rep.start b && leb b hi then f b else 0) start (end - start) =
      sum_blocks-ext _ _ start (end - start) (λ b lt le. ground arith) in
    let first : max start p_rep.start ≡ clip_start start p_rep = ground arith in
    let count : min hi (start + (end - start)) - max start p_rep.start
        ≡ clip_end end p_rep - clip_start start p_rep =
      ground arith in
    rw (spans, sum_blocks-clip f p_rep.start hi start (end - start), count, first)

-- What a delegation earns in all from one block to another, before the division.
pub earned : List GovernanceVariable → ℕ → ℕ → ℕ → PRepCandidate → ℕ
earned gvs d start end p_rep = d * sum_blocks (rate gvs p_rep) start (end - start)

-- Over governance variables with rising block heights, the reward of a delegation of `d`, not
-- negative, is what it earns block by block, at the rate of the governance variable that each block
-- finds and only while the P-Rep is a candidate, over the divider: never more than that, and less
-- by under 1 for each governance variable, which is where the code rounds.
pub calculate_delegation_reward_bounds :
    (gvs : List GovernanceVariable) (d start end : ℕ) (p_rep : PRepCandidate)
    → IsAscending gv_height gvs
    → (r : ℕ) × (calculate_delegation_reward gvs (pos d) start end p_rep ≡ pos r)
      × (r * reward_divider ≤ earned gvs d start end p_rep)
      × (earned gvs d start end p_rep ≤ r * reward_divider + length gvs * (reward_divider - 1))
unfolding calculate_delegation_reward earned
calculate_delegation_reward_bounds gvs d start end p_rep up =
    let s = clip_start start p_rep in
    let e = clip_end end p_rep in
    let bounds = rewards_bounds s e d gvs in
    let blocks : d * sum_blocks (rate gvs p_rep) start (end - start)
        ≡ d * sum_periods gv_height gv_rate s e gvs =
      rw (
        sum_blocks-rate gvs p_rep start end,
        sum_periods-eq-sum_blocks gv_height gv_rate s e gvs up,
      ) in
    (
      rewards s e d gvs,
      rw (add_rewards_pos s e d 0 gvs) (ground arith),
      omega (arith, blocks, bounds.0),
      omega (arith, blocks, bounds.1),
    )
