-- ===== src/Base/Bytes.antt =====
-- Byte strings: a list of numbers below 256, compared byte by byte (bytes.Compare).
use rewardcalculator.Base.{
  ℕ, ◌≡◌, ◌↔◌, inl, inr, refl, arith, Bool, true, false, List, [], ◌∷◌, ◌++◌, ltb, ◌==◌, ◌&&◌,
  if◌then◌else◌, Eq, length, Bool-cases,
}

abbrev pub Bytes : Type 0
Bytes = List ℕ

unfoldable pub bytes_beq : Bytes → Bytes → Bool
bytes_beq [] [] = true
bytes_beq [] (y ∷ ys) = false
bytes_beq (x ∷ xs) [] = false
bytes_beq (x ∷ xs) (y ∷ ys) = let rest = bytes_beq xs ys in x == y && rest

pub bytes_beq_iff : (a b : Bytes) → (bytes_beq a b ≡ true) ↔ (a ≡ b)
unfolding bytes_beq
bytes_beq_iff [] [] = ((λ _. refl), λ _. refl)
bytes_beq_iff [] (y ∷ ys) = ((λ h. cc), λ h. cc)
bytes_beq_iff (x ∷ xs) [] = ((λ h. cc), λ h. cc)
bytes_beq_iff (x ∷ xs) (y ∷ ys) = ground (arith, bytes_beq_iff xs ys)

instance abbrev pub bytes_eq : Eq Bytes
bytes_eq = record { beq = bytes_beq; beq_iff = bytes_beq_iff }

-- The order of bytes.Compare, strictly below.
unfoldable pub before : Bytes → Bytes → Bool
before xs [] = false
before [] (y ∷ ys) = true
before (x ∷ xs) (y ∷ ys) =
    let rest = before xs ys in if ltb x y then true else if x == y then rest else false

unfoldable pub has_prefix : Bytes → Bytes → Bool
has_prefix [] k = true
has_prefix (p ∷ ps) [] = false
has_prefix (p ∷ ps) (b ∷ bs) = let rest = has_prefix ps bs in p == b && rest

pub before_trans : (a b c : Bytes) → before a b ≡ true → before b c ≡ true → before a c ≡ true
unfolding before
before_trans a b [] h k = k
before_trans a [] (z ∷ zs) h k = absurd cc
before_trans [] (y ∷ ys) (z ∷ zs) h k = refl
before_trans (x ∷ xs) (y ∷ ys) (z ∷ zs) h k = ground (arith, before_trans xs ys zs, h, k)

pub before_connex : (a b : Bytes) → bytes_beq a b ≡ false → before a b ≡ false → before b a ≡ true
unfolding before bytes_beq
before_connex [] [] d h = absurd cc
before_connex [] (y ∷ ys) d h = absurd cc
before_connex (x ∷ xs) [] d h = refl
before_connex (x ∷ xs) (y ∷ ys) d h = ground (arith, before_connex xs ys, d, h)

pub before_prefix : (p a b : Bytes) → before (p ++ a) (p ++ b) ≡ before a b
unfolding before
before_prefix [] a b = refl
before_prefix (x ∷ p) a b = ground (arith, before_prefix p a b)

pub has_prefix-append : (p a : Bytes) → has_prefix p (p ++ a) ≡ true
unfolding has_prefix
has_prefix-append [] a = refl
has_prefix-append (x ∷ p) a = ground (arith, has_prefix-append p a)

-- Different prefixes of one length exclude each other.
has_prefix-other :
    (p q a : Bytes) → length p ≡ length q → bytes_beq p q ≡ false → has_prefix p (q ++ a) ≡ false
unfolding has_prefix bytes_beq
has_prefix-other [] [] a len d = d
has_prefix-other [] (y ∷ q) a len d = absurd (omega (arith, len))
has_prefix-other (x ∷ p) [] a len d = absurd (omega (arith, len))
has_prefix-other (x ∷ p) (y ∷ q) a len d =
    let same : length p ≡ length q = omega (arith, len) in
    elim (Bool-cases (x == y)) [
      | inl eq ↦
          let rest : bytes_beq p q ≡ false = ground (arith, d, eq) in
          rw (eq, has_prefix-other p q a same rest) refl
      | inr ne ↦ rw ne refl
    ]
