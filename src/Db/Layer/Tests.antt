-- ===== src/Db/Layer/Tests.antt =====
-- A layer at concrete values.
use rewardcalculator.Base.{ℕ, nat_eq, ◌≡◌, true, false, List, [], ◌∷◌}
use rewardcalculator.Db.Engine.{Engine}
use rewardcalculator.Db.MapDb.{empty, engine}
use rewardcalculator.Db.Layer.{get, flush}
use rewardcalculator.Db.Layer.Transaction.{
  Write, put, remove, to_layer, to_real, layer, layer_is_transaction,
}

abbrev numbers : Engine ℕ ℕ
numbers = engine ℕ ℕ

-- 2 ↦ 7
abbrev before : numbers.Table
before = numbers.set (empty ℕ ℕ) 2 7

abbrev writes : List (Write numbers)
writes = put 1 5 ∷ remove 2 ∷ put 1 6 ∷ []

layer_is_transaction_example :
    let bk = to_layer numbers writes (layer numbers before) in
    (get numbers bk 1 ≡ numbers.get (to_real numbers writes before) 1)
    × (bk.real ≡ before)
    × (numbers.get (flush numbers true bk).real 1 ≡ numbers.get (to_real numbers writes before) 1)
    × ((flush numbers false bk).real ≡ before)
layer_is_transaction_example = layer_is_transaction numbers writes before 1
