-- ===== src/HexInt/Digits.antt =====
-- Bytes as the digits of a number.
use rewardcalculator.Base.{
  ℕ, zero, suc, ◌+◌, ◌*◌, ◌/◌, ◌%◌, ◌≤◌, ◌<◌, ◌≡◌, refl, arith, true, false, List, [], ◌∷◌, ◌++◌,
  length, ◌==◌, All, Bool-cases, inl, inr,
}
use rewardcalculator.HexInt.Uint64.{put_bytes, read_bytes, add_byte}
use mathlib.Core.List.{append-nil}
use rewardcalculator.Base.Words.{wrap64, modulus}

abbrev pub AreBytes : List ℕ → Type 0
AreBytes bs = All (λ (b : ℕ). b < 256) bs

-- The number that has the digits of `v` in front.
unfoldable pub value : ℕ → List ℕ → ℕ
value v [] = v
value v (b ∷ bs) = value (v * 256 + b) bs

unfoldable pub pow256 : ℕ → ℕ
pow256 zero = 1
pow256 (suc n) = 256 * pow256 n

pub value-grows : (bs : List ℕ) (v : ℕ) → v ≤ value v bs
unfolding value
value-grows [] v = omega arith
value-grows (b ∷ bs) v = omega (arith, value-grows bs (v * 256 + b))

-- The loop writes the digits of a number that has at most `left` of them.
pub value-put_bytes :
    (left v : ℕ) (bs : List ℕ) → v < pow256 left → value 0 (put_bytes left v bs) ≡ value v bs
unfolding value put_bytes pow256
value-put_bytes zero v bs h = let none_left : v ≡ 0 = omega (arith, h) in rw none_left refl
value-put_bytes (suc left) v bs h = elim (Bool-cases (v / 256 == 0)) [
  | inl last ↦
      let all : v % 256 ≡ v = ground (arith, last) in
      let front : 0 + v ≡ v = omega arith in rw (last, all, front) refl
  | inr more ↦
      let joined : v / 256 * 256 + v % 256 ≡ v = omega arith in
      rw (more, value-put_bytes left (v / 256) (v % 256 ∷ bs) (omega (arith, h)), joined) refl
]

put_bytes-value :
    (bs : List ℕ) (left v : ℕ) (post : List ℕ)
    → AreBytes bs
    → 0 < v
    → put_bytes (left + length bs) (value v bs) post ≡ put_bytes left v (bs ++ post)
unfolding value put_bytes
put_bytes-value [] left v post d h = (let all : left + 0 ≡ left = omega arith in rw all refl)
put_bytes-value (b ∷ bs) left v post d h =
    let more : ((v * 256 + b) / 256 == 0) ≡ false = ground (arith, d.0) in
    let digit : (v * 256 + b) % 256 ≡ b = omega (arith, d.0) in
    let front : (v * 256 + b) / 256 ≡ v = omega (arith, d.0) in
    let shift : left + suc (length bs) ≡ suc left + length bs = omega arith in
    rw
      (
        shift,
        put_bytes-value bs (suc left) (v * 256 + b) post d.1 (omega arith),
        more,
        digit,
        front,
      )
      refl

pub read_bytes-value : (bs : List ℕ) (v : ℕ) → value v bs < modulus → read_bytes bs v ≡ value v bs
unfolding value read_bytes add_byte
read_bytes-value [] v h = refl
read_bytes-value (b ∷ bs) v h =
    let kept : wrap64 (v * 256) ≡ v * 256 = omega (arith, h, value-grows bs (v * 256 + b)) in
    rw (kept, read_bytes-value bs (v * 256 + b) h) refl

pub value-bound :
    (bs : List ℕ) (v n m : ℕ)
    → AreBytes bs
    → v < pow256 n
    → n + length bs ≡ m
    → value v bs < pow256 m
unfolding value pow256
value-bound [] v n m d h total = (let all : n ≡ m = omega (arith, total) in rw (← all) h)
value-bound (b ∷ bs) v n m d h total =
    value-bound bs (v * 256 + b) (suc n) m d.1 (omega (arith, d.0, h)) (omega (arith, total))

-- No zero in front.
abbrev pub IsShortest : List ℕ → Type 0
IsShortest [] = Unit
IsShortest (b ∷ bs) = 0 < b

pow256-positive : (n : ℕ) → 0 < pow256 n
unfolding pow256
pow256-positive zero = omega arith
pow256-positive (suc n) = omega (arith, pow256-positive n)

pub byte-bound : (b n : ℕ) → b < 256 → b < pow256 (suc n)
unfolding pow256
byte-bound b n h = omega (arith, h, pow256-positive n)

pub put_bytes-front :
    (b : ℕ) (bs : List ℕ) (left n : ℕ)
    → AreBytes (b ∷ bs)
    → 0 < b
    → suc left + length bs ≡ n
    → put_bytes n (value b bs) [] ≡ b ∷ bs
unfolding put_bytes
put_bytes-front b bs left n d first total =
    let last : (b / 256 == 0) ≡ true = ground (arith, d.0) in
    let digit : b % 256 ≡ b = omega (arith, d.0) in
    rw (← total, put_bytes-value bs (suc left) b [] d.1 first, last, digit, append-nil bs) refl
