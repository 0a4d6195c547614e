-- ===== src/Db/Key.antt =====
-- The keys of the engine: `internalKey` of common/db/bucket.go, and the ID methods of
-- GovernanceVariable, PRep (core/db_management.go), IISSGovernanceVariable, IISSBlockProduceInfo
-- and IISSTX (core/db_iissdata.go), which all write a uint64 into 8 bytes.
pub mod Order
use rewardcalculator.Base.{ℕ, ◌-◌, ◌++◌, length, drop, replicate}
use rewardcalculator.Base.Bytes.{Bytes}
use rewardcalculator.HexInt.Uint64.{uint64_to_bytes, bytes_to_uint64}

unfoldable pub internal_key : Bytes → Bytes → Bytes
internal_key id key = id ++ key

unfoldable pub id : ℕ → Bytes
unfolding uint64_to_bytes
id n = replicate (8 - length (uint64_to_bytes n)) 0 ++ uint64_to_bytes n

-- `BytesToUint64(iter.Key()[len(prefix):])`
unfoldable pub height_of_key : Bytes → Bytes → ℕ
unfolding bytes_to_uint64
height_of_key prefix key = bytes_to_uint64 (drop (length prefix) key)
