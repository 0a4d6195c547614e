-- ===== src/Address/Number.antt =====
-- An address is told by its number.
use rewardcalculator.Base.{
  ◌≡◌, sym, ap, ◌∙◌, arith, Bool, true, false, ◌∷◌, length, Bool-cases, inl, inr, ◌==◌,
}
use rewardcalculator.Base.Bytes.{Bytes, before, bytes_beq, bytes_beq_iff, before_connex}
use rewardcalculator.HexInt.Digits.{AreBytes, value}
use rewardcalculator.Db.Key.Order.{before-value}
use rewardcalculator.Address.{number_of, type_byte}
use rewardcalculator.Address.RoundTrip.{IsAddress}

digits :
    (ic : Bool) (id : Bytes)
    → length id ≡ 20
    → AreBytes id
    → AreBytes (type_byte ic ∷ id) × (length (type_byte ic ∷ id) ≡ 21)
digits true id long d = ((omega arith, d), omega (arith, long))
digits false id long d = ((omega arith, d), omega (arith, long))

bytes_of : (a : Bytes) → IsAddress a → AreBytes a × (length a ≡ 21)
bytes_of a is = rw is.is (digits is.contract is.id is.long is.are_bytes)

value-injective :
    (a b : Bytes)
    → AreBytes a
    → AreBytes b
    → length a ≡ length b
    → value 0 a ≡ value 0 b
    → bytes_beq a b ≡ true
value-injective a b d d' len h = elim (Bool-cases (bytes_beq a b)) [
  | inl same ↦ same
  | inr other ↦ elim (Bool-cases (before a b)) [
    | inl below ↦ absurd (omega (arith, before-value a b 0 below d len, h))
    | inr above ↦
        absurd (omega (arith, before-value b a 0 (before_connex a b other above) d' (sym len), h))
  ]
]

pub number_of-injective :
    (a b : Bytes) → IsAddress a → IsAddress b → (number_of a == number_of b) ≡ bytes_beq a b
unfolding number_of
number_of-injective a b is is' =
    let da = bytes_of a is in
    let db = bytes_of b is' in
    elim (Bool-cases (value 0 a == value 0 b)) [
      | inl same ↦
          same ∙ sym (value-injective a b da.0 db.0 (da.1 ∙ sym db.1) (ground (arith, same)))
      | inr other ↦ elim (Bool-cases (bytes_beq a b)) [
        | inl equal ↦
            let numbers : value 0 a ≡ value 0 b = ap (value 0) ((bytes_beq_iff a b).0 equal) in
            absurd (ground (arith, other, numbers))
        | inr differ ↦ other ∙ sym differ
      ]
    ]
