-- ===== src/Db/Codec.antt =====
-- The MessagePack codec of common/codec, which is a library's: a value is marshalled to bytes, and
-- what is marshalled is unmarshalled to itself.
use rewardcalculator.Base.{◌≡◌, Bool, true, false, Option, none, some}
use rewardcalculator.Base.Bytes.{Bytes}

-- `unmarshal` gives what the decoder leaves in a new value, and whether there was no error.
pub record Codec (D : Type 0) : Type 0 where
  pub marshal : D → Bytes
  pub unmarshal : Bytes → D × Bool
  pub unmarshal-marshal : (d : D) → unmarshal (marshal d) ≡ (d, true)

module _ {D : Type 0} where
  -- The value, where there is no error.
  abbrev pub checked : D × Bool → Option D
  checked (d, true) = some d
  checked (d, false) = none
