-- ===== src/Db/Ordered/Unique.antt =====
-- A sorted list of numbered entries is told by its lookups.
use rewardcalculator.Base.{
  ℕ, nat_eq, ◌+◌, ◌<◌, ◌≡◌, ◌≢◌, refl, sym, ◌∙◌, arith, true, false, none, some, List, [], ◌∷◌, ltb,
  ◌==◌, lookup, Entries, Bool-cases, inl, inr,
}
use rewardcalculator.Db.Ordered.{IsFirst, IsSorted}

module _ {D : Type 0} where
  none-some : {d : D} → none ≢ some d
  none-some h = cc

  lookup-IsFirst : (k n : ℕ) (m : List (ℕ × D)) → IsFirst ltb k m → n < k + 1 → lookup n m ≡ none
  lookup-IsFirst k n [] f h = refl
  lookup-IsFirst k n ((j, d) ∷ m) f h =
      let other : (j == n) ≡ false = ground (arith, f.0, h) in rw other (lookup-IsFirst k n m f.1 h)

  abbrev pub AreUnder : ℕ → List (ℕ × D) → Type 0
  AreUnder bound m = Entries (λ n d. n < bound) m

  -- The first entries are the same.
  same_key :
      (bound a b : ℕ) (x y : D) (l m : List (ℕ × D))
      → a < bound
      → IsFirst ltb b m
      → ((n : ℕ) → n < bound → lookup n ((a, x) ∷ l) ≡ lookup n ((b, y) ∷ m))
      → b < a + 1
  same_key bound a b x y l m fits f h = elim (Bool-cases (ltb a b)) [
    | inl less ↦
        let own : (a == a) ≡ true = ground arith in
        let other : (b == a) ≡ false = ground (arith, less) in
        let there : lookup a ((a, x) ∷ l) ≡ some x = rw own refl in
        let missing : lookup a ((b, y) ∷ m) ≡ none =
          rw other (lookup-IsFirst b a m f (ground (arith, less))) in
        absurd (none-some (sym missing ∙ sym (h a fits) ∙ there))
    | inr not_less ↦ ground (arith, not_less)
  ]

  pub sorted_unique :
      (bound : ℕ) (l m : List (ℕ × D))
      → IsSorted ltb l
      → IsSorted ltb m
      → AreUnder bound l
      → AreUnder bound m
      → ((n : ℕ) → n < bound → lookup n l ≡ lookup n m)
      → l ≡ m
  sorted_unique bound [] [] s s' u u' h = refl
  sorted_unique bound [] ((b, y) ∷ m) s s' u u' h =
      let own : (b == b) ≡ true = ground arith in
      let there : lookup b ((b, y) ∷ m) ≡ some y = rw own refl in
      absurd (none-some (h b u'.0 ∙ there))
  sorted_unique bound ((a, x) ∷ l) [] s s' u u' h =
      let own : (a == a) ≡ true = ground arith in
      let there : lookup a ((a, x) ∷ l) ≡ some x = rw own refl in
      absurd (none-some (sym (h a u.0) ∙ there))
  sorted_unique bound ((a, x) ∷ l) ((b, y) ∷ m) s s' u u' h =
      let up = same_key bound a b x y l m u.0 s'.0 h in
      let down = same_key bound b a y x m l u'.0 s.0 (λ n fits. sym (h n fits)) in
      let same : a ≡ b = omega (arith, up, down) in
      let own : (b == b) ≡ true = ground arith in
      let own' : (a == b) ≡ true = ground (arith, same) in
      let datum : some x ≡ some y = (let it = h b u'.0 in rw own at (rw own' at it)) in
      let tails : (n : ℕ) → n < bound → lookup n l ≡ lookup n m = λ n fits.
        (elim (Bool-cases (b == n)) [
          | inl here ↦
              lookup-IsFirst a n l s.0 (ground (arith, here, same))
              ∙ sym (lookup-IsFirst b n m s'.0 (ground (arith, here)))
          | inr away ↦
              let away' : (a == n) ≡ false = ground (arith, away, same) in
              (let it = h n fits in rw away at (rw away' at it))
        ]) in
      let rest = sorted_unique bound l m s.1 s'.1 u.1 u'.1 tails in cc
