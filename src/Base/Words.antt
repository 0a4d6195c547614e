-- ===== src/Base/Words.antt =====
-- Go's uint64: a native number below 2 ^ 64, its arithmetic with the wrap written out.
use rewardcalculator.Base.{ℕ, ◌+◌, ◌-◌, ◌%◌}

abbrev pub modulus : ℕ
modulus = 18446744073709551616

abbrev pub wrap64 : ℕ → ℕ
wrap64 n = n % modulus

-- `a - b` in 64 bits.
abbrev pub sub64 : ℕ → ℕ → ℕ
sub64 a b = (a + modulus - b) % modulus
