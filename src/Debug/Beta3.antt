-- ===== src/Debug/Beta3.antt =====
-- One period of WriteBeta3Info (core/calculation_debug.go) and of calculateDelegationReward
-- (core/msg_calculate.go).
use rewardcalculator.Base.{
  ℕ, zero, suc, ◌+◌, ◌-◌, ◌*◌, ◌%◌, ◌<◌, ◌≤◌, ◌⊎◌, ◌≡◌, refl, arith, true, none, some, List, [],
  ◌∷◌, ltb, leb, if◌then◌else◌, Bool-cases, inl, inr,
}
use rewardcalculator.Base.Int.{pos, mul_pos, div_pos_lem}
use rewardcalculator.Base.Words.{modulus, wrap64}
use rewardcalculator.Context.Periods.{period_of, next_start}
use rewardcalculator.Context.Governance.{GovernanceVariable, gv_height}
use rewardcalculator.Calculate.Delegation.{reward_of}
use rewardcalculator.Debug.Change.{beta3_of}

-- The products of WriteBeta3Info fit in 64 bits, for any period up to a height.
abbrev pub Small : ℕ → ℕ → GovernanceVariable → Type 0
Small end delegate gv =
    (gv.reward_rep < modulus)
    × (gv.reward_rep * end < modulus)
    × (gv.reward_rep * end * delegate < modulus)

mul_below : (a b c : ℕ) → b ≤ c → a * b ≤ a * c
mul_below zero b c h = omega arith
mul_below (suc a) b c h = (let rest = mul_below a b c h in omega (arith, rest, h))

mul_below_right : (a b c : ℕ) → a ≤ b → a * c ≤ b * c
mul_below_right a b zero h = omega arith
mul_below_right a b (suc c) h = (let rest = mul_below_right a b c h in omega (arith, rest, h))

whole : (n : ℕ) → n < modulus → wrap64 n ≡ n
whole n h = omega (arith, h)

pub beta3_of-reward_of :
    (gv : GovernanceVariable) (period end delegate : ℕ)
    → period ≤ end
    → delegate < modulus
    → Small end delegate gv
    → reward_of (pos delegate) period gv
      ≡ pos (beta3_of (wrap64 gv.reward_rep) period (pos delegate))
unfolding reward_of beta3_of
beta3_of-reward_of gv period end delegate h d small =
    let rate = mul_below gv.reward_rep period end h in
    let amount = mul_below_right (gv.reward_rep * period) (gv.reward_rep * end) delegate rate in
    let one = whole (gv.reward_rep * period) (omega (arith, rate, small.1)) in
    let two = whole (gv.reward_rep * period * delegate) (omega (arith, amount, small.2)) in
    let same : delegate * period * gv.reward_rep ≡ gv.reward_rep * period * delegate =
      omega arith in
    let low : (delegate + 0) % modulus ≡ delegate = omega (arith, d) in
    rw
      (
        mul_pos delegate period,
        mul_pos (delegate * period) gv.reward_rep,
        div_pos_lem,
        whole gv.reward_rep small.0,
        one,
        low,
        two,
        same,
      )
      refl

pub record Stretch (start end : ℕ) (gv : GovernanceVariable) (rest : List GovernanceVariable)
    : Type 0 where
  pub from : ℕ
  pub to : ℕ
  pub is : period_of gv_height start end gv rest ≡ some (from, to)
  pub above : ltb gv.block_height to ≡ true
  pub within : to - from ≤ end

next_start-within : (end : ℕ) (rest : List GovernanceVariable) → next_start gv_height end rest ≤ end
next_start-within end [] = omega arith
next_start-within end (gv ∷ rest) = ground arith

pub period_cases :
    (start end : ℕ) (gv : GovernanceVariable) (rest : List GovernanceVariable)
    → (period_of gv_height start end gv rest ≡ none) ⊎ Stretch start end gv rest
unfolding period_of
period_cases start end gv rest =
    let s : ℕ = if ltb start gv.block_height then gv.block_height else start in
    let e : ℕ = next_start gv_height end rest in
    let within : e ≤ end = next_start-within end rest in
    let later : gv.block_height ≤ s = ground arith in
    elim (Bool-cases (leb e s)) [
      | inl over ↦ inl (rw over refl)
      | inr under ↦ inr (record {
        from = s;
        to = e;
        is = rw under refl;
        above = ground (arith, under, later);
        within = omega (arith, within);
      })
    ]
