-- ===== src/Calculate/Calculation/Sums.antt =====
-- The statistics that DoCalculate adds up.
use rewardcalculator.Base.{ℕ, nat_eq, ◌≡◌, List, [], ◌∷◌}
use rewardcalculator.Base.Int.{ℤ, pos, ◌+ℤ◌, int_laws}
use rewardcalculator.Statistics.{
  Statistics, increase, get_field, set, field_beta1, field_beta2, field_beta3,
}
use rewardcalculator.Calculate.Calculation.{add_statistics, sum_statistics}
use rewardcalculator.Calculate.Calculation.Copies.{sum_beta3}

pub nothing_more : (a : ℤ) → a ≡ a +ℤ pos 0
nothing_more a = grind int_laws

assoc : (a b c : ℤ) → a +ℤ b +ℤ c ≡ a +ℤ (b +ℤ c)
assoc a b c = grind int_laws

pub new_statistics-IsSplit : pos 0 ≡ pos 0 +ℤ pos 0 +ℤ pos 0
new_statistics-IsSplit = grind int_laws

-- The total is the sum of the three kinds.
abbrev pub IsSplit : Statistics → Type 0
IsSplit s = s.total_reward ≡ s.beta1 +ℤ s.beta2 +ℤ s.beta3

split1 : (t a b c r : ℤ) → t ≡ a +ℤ b +ℤ c → t +ℤ r ≡ a +ℤ r +ℤ b +ℤ c
split1 t a b c r h = grind (int_laws, h)

split2 : (t a b c r : ℤ) → t ≡ a +ℤ b +ℤ c → t +ℤ r ≡ a +ℤ (b +ℤ r) +ℤ c
split2 t a b c r h = grind (int_laws, h)

split3 : (t a b c r : ℤ) → t ≡ a +ℤ b +ℤ c → t +ℤ r ≡ a +ℤ b +ℤ (c +ℤ r)
split3 t a b c r h = grind (int_laws, h)

pub beta1-IsSplit :
    (n : ℕ) (r : ℤ) (s : Statistics) → IsSplit s → IsSplit (add_statistics field_beta1 n r s)
unfolding add_statistics increase get_field set
beta1-IsSplit n r s h = split1 _ _ _ _ r h

pub beta2-IsSplit :
    (n : ℕ) (r : ℤ) (s : Statistics) → IsSplit s → IsSplit (add_statistics field_beta2 n r s)
unfolding add_statistics increase get_field set
beta2-IsSplit n r s h = split2 _ _ _ _ r h

pub beta3-IsSplit :
    (n : ℕ) (r : ℤ) (s : Statistics) → IsSplit s → IsSplit (add_statistics field_beta3 n r s)
unfolding add_statistics increase get_field set
beta3-IsSplit n r s h = split3 _ _ _ _ r h

pub sum_statistics-IsSplit :
    (l : List Statistics) (s : Statistics) → IsSplit s → IsSplit (sum_statistics l s)
unfolding sum_statistics
sum_statistics-IsSplit [] s h = h
sum_statistics-IsSplit (t ∷ l) s h =
    sum_statistics-IsSplit l (add_statistics field_beta3 t.accounts t.beta3 s)
      (beta3-IsSplit t.accounts t.beta3 s h)

pub total_reward-sum_statistics :
    (l : List Statistics) (s : Statistics)
    → (sum_statistics l s).total_reward ≡ s.total_reward +ℤ sum_beta3 l
unfolding sum_statistics sum_beta3 add_statistics increase get_field set
total_reward-sum_statistics [] s = nothing_more _
total_reward-sum_statistics (t ∷ l) s =
    rw (total_reward-sum_statistics l (add_statistics field_beta3 t.accounts t.beta3 s))
      (assoc _ _ _)
