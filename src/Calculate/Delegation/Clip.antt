-- ===== src/Calculate/Delegation/Clip.antt =====
-- Sums over blocks that only count inside a span.
use rewardcalculator.Base.{
  ℕ, zero, suc, ◌+◌, ◌-◌, ◌≡◌, refl, max, min, arith, ltb, leb, if◌then◌else◌, ◌&&◌, Bool-cases,
  inl, inr,
}
use rewardcalculator.Context.Periods.Blocks.{sum_blocks}

pub sum_blocks-clip :
    (f : ℕ → ℕ) (lo hi start n : ℕ)
    → sum_blocks (λ b. if ltb lo b && leb b hi then f b else 0) start n
      ≡ sum_blocks f (max start lo) (min hi (start + n) - max start lo)
unfolding sum_blocks
sum_blocks-clip f lo hi start zero =
    let empty : min hi (start + 0) - max start lo ≡ 0 = omega arith in rw empty refl
sum_blocks-clip f lo hi start (suc n) =
    elim (Bool-cases (ltb lo (start + suc n) && leb (start + suc n) hi)) [
      | inl inside ↦
          let count : min hi (start + suc n) - max start lo
              ≡ suc (min hi (start + n) - max start lo) =
            ground arith in
          let place : max start lo + suc (min hi (start + n) - max start lo) ≡ start + suc n =
            ground arith in
          rw (inside, count, sum_blocks, place, sum_blocks-clip f lo hi start n) refl
      | inr outside ↦
          let same : min hi (start + suc n) - max start lo ≡ min hi (start + n) - max start lo =
            ground arith in
          rw (outside, same, sum_blocks-clip f lo hi start n) (omega arith)
    ]
