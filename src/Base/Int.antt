-- ===== src/Base/Int.antt =====
-- `common.HexInt`, which is `math/big`'s Int: integers over the native numbers, under the
-- library's names, with the Euclidean division of `big.Int.Div` and `big.Int.Mod`.
use rewardcalculator.Base.{
  ℕ, suc, ◌+◌, ◌-◌, ◌*◌, ◌/◌, ◌%◌, ◌≤◌, ◌<◌, ◌≡◌, refl, Bool, arith, ltb, leb, ◌==◌, ◌&&◌,
  if◌then◌else◌,
}

-- `negsuc n` is -(n + 1).
pub data ℤ : Type 0 where
  pos : ℕ → ℤ
  negsuc : ℕ → ℤ

abbrev pub pos_part : ℤ → ℕ
pos_part (pos n) = n
pos_part (negsuc n) = 0

abbrev pub neg_part : ℤ → ℕ
neg_part (pos n) = 0
neg_part (negsuc n) = suc n

-- a - b, as an integer.
abbrev pub sub_ℕ : ℕ → ℕ → ℤ
sub_ℕ a b = if leb b a then pos (a - b) else negsuc (b - a - 1)

infixl 65 ◌+ℤ◌ ◌-ℤ◌
infixl 70 ◌*ℤ◌ ◌/ℤ◌ ◌%ℤ◌
infix 50 ◌≤ℤ◌
unfoldable pub ◌+ℤ◌ : ℤ → ℤ → ℤ
a +ℤ b = sub_ℕ (pos_part a + pos_part b) (neg_part a + neg_part b)

unfoldable pub ◌-ℤ◌ : ℤ → ℤ → ℤ
a -ℤ b = sub_ℕ (pos_part a + neg_part b) (neg_part a + pos_part b)

unfoldable pub ◌*ℤ◌ : ℤ → ℤ → ℤ
a *ℤ b =
    sub_ℕ (pos_part a * pos_part b + neg_part a * neg_part b)
      (pos_part a * neg_part b + neg_part a * pos_part b)

abbrev div_pos : ℤ → ℕ → ℤ
div_pos (pos n) d = pos (n / d)
div_pos (negsuc n) d = negsuc (n / d)

-- The quotient of Euclidean division, whose remainder is never negative.
unfoldable pub ◌/ℤ◌ : ℤ → ℤ → ℤ
unfolding ◌-ℤ◌
a /ℤ pos d = div_pos a d
a /ℤ negsuc d = pos 0 -ℤ div_pos a (suc d)

unfoldable pub ◌%ℤ◌ : ℤ → ℤ → ℤ
unfolding ◌-ℤ◌ ◌*ℤ◌ ◌/ℤ◌
a %ℤ b = a -ℤ b *ℤ (a /ℤ b)

abbrev pub ◌≤ℤ◌ : ℤ → ℤ → Type 0
a ≤ℤ b = pos_part a + neg_part b ≤ pos_part b + neg_part a

-- `a.Cmp(b) == -1`
abbrev pub ltb_ℤ : ℤ → ℤ → Bool
ltb_ℤ a b = ltb (pos_part a + neg_part b) (pos_part b + neg_part a)

-- `a.Sign() == 0`
abbrev pub is_zero : ℤ → Bool
is_zero a = pos_part a + neg_part a == 0

-- `a.Uint64()`: the low 64 bits of the absolute value.
abbrev pub to_uint64 : ℤ → ℕ
to_uint64 a = (pos_part a + neg_part a) % 18446744073709551616

pub +ℤ_parts :
    (a b : ℤ)
    → pos_part (a +ℤ b) + neg_part a + neg_part b ≡ neg_part (a +ℤ b) + pos_part a + pos_part b
unfolding ◌+ℤ◌
+ℤ_parts a b = ground arith

pub -ℤ_parts :
    (a b : ℤ)
    → pos_part (a -ℤ b) + neg_part a + pos_part b ≡ neg_part (a -ℤ b) + pos_part a + neg_part b
unfolding ◌-ℤ◌
-ℤ_parts a b = ground arith

pub eq_of_parts : (a b : ℤ) → pos_part a + neg_part b ≡ pos_part b + neg_part a → a ≡ b
eq_of_parts a b h = ground arith

-- One lemma for each operation lets `omega` work with the operations shut, at any depth.
pub ruleset int_laws = (arith, +ℤ_parts, -ℤ_parts, eq_of_parts)

pub mul_pos : (a b : ℕ) → pos a *ℤ pos b ≡ pos (a * b)
unfolding ◌*ℤ◌
mul_pos a b = ground arith

pub div_pos_lem : (a b : ℕ) → pos a /ℤ pos b ≡ pos (a / b)
unfolding ◌/ℤ◌
div_pos_lem a b = refl

pub mod_pos : (a b : ℕ) → 0 < b → pos a %ℤ pos b ≡ pos (a % b)
unfolding ◌%ℤ◌
mod_pos a b h = ground arith
