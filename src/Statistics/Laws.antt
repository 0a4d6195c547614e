-- ===== src/Statistics/Laws.antt =====
-- Increase and Decrease of a field.
use rewardcalculator.Base.{ℕ, ◌+◌, ◌<◌, ◌≡◌, refl, arith, none, some}
use rewardcalculator.Base.Int.{ℤ, ◌+ℤ◌, ◌-ℤ◌, int_laws}
use rewardcalculator.Base.Words.{modulus, sub64, wrap64}
use rewardcalculator.Statistics.{
  Statistics, Field, field_accounts, field_total_reward, field_beta1, field_beta2, field_beta3,
  other, Value, uint64, hex_int, other_type, get_field, set, increase, decrease,
}

-- The count is below 2 ^ 64, and so is a count that is added to it.
pub record IsInRange (s : Statistics) (v : Value) : Type 0 where
  pub accounts : s.accounts < modulus
  pub value : (n : ℕ) → v ≡ uint64 n → n < modulus

add_back : (a b : ℤ) → a +ℤ b -ℤ b ≡ a
add_back a b = grind int_laws

-- For a count and, where the value is a count, a value below 2 ^ 64: what Increase takes without an
-- error, Decrease takes back without one, and the counters are the ones of before, a count that
-- wrapped included.
pub decrease-increase :
    (s : Statistics) (f : Field) (v : Value)
    → IsInRange s v
    → (increase s f v).1 ≡ none
    → decrease (increase s f v).0 f v ≡ some (s, none)
unfolding increase decrease get_field set
decrease-increase s field_accounts (uint64 n) r h =
    let back : sub64 (wrap64 (s.accounts + n)) n ≡ s.accounts =
      ground (arith, r.accounts, r.value n refl) in
    rw back
decrease-increase s field_accounts (hex_int n) r h = cc
decrease-increase s field_accounts other_type r h = cc
decrease-increase s field_total_reward (hex_int a) r h = rw (add_back s.total_reward a)
decrease-increase s field_total_reward (uint64 a) r h = cc
decrease-increase s field_total_reward other_type r h = cc
decrease-increase s field_beta1 (hex_int a) r h = rw (add_back s.beta1 a)
decrease-increase s field_beta1 (uint64 a) r h = cc
decrease-increase s field_beta1 other_type r h = cc
decrease-increase s field_beta2 (hex_int a) r h = rw (add_back s.beta2 a)
decrease-increase s field_beta2 (uint64 a) r h = cc
decrease-increase s field_beta2 other_type r h = cc
decrease-increase s field_beta3 (hex_int a) r h = rw (add_back s.beta3 a)
decrease-increase s field_beta3 (uint64 a) r h = cc
decrease-increase s field_beta3 other_type r h = cc
decrease-increase s other v r h = cc
