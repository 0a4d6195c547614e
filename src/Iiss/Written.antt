-- ===== src/Iiss/Written.antt =====
-- Any sequence of writes of IISS data, and what a bucket should hold after it.
use rewardcalculator.Base.{ℕ, nat_eq, Option, some, List, [], ◌∷◌, ◌<◌, ◌==◌, if◌then◌else◌}
use rewardcalculator.Base.Int.{pos}
use rewardcalculator.Base.Words.{modulus}
use rewardcalculator.Base.Bytes.{Bytes, bytes_eq}
use rewardcalculator.Db.Engine.{Engine}
use rewardcalculator.Context.Governance.{PRepDelegationInfo}
use rewardcalculator.Context.Load.{PRepData}
use rewardcalculator.Iiss.{
  IissHeader, IissGvData, IissBlockProduceInfoData, Codecs, write_iiss_header, write_iiss_gv,
  write_iiss_bp, write_iiss_prep,
}

pub data Write : Type 0 where
  header : ℕ → ℕ → ℕ → Write
  gv : ℕ → ℕ → ℕ → ℕ → ℕ → Write
  block : ℕ → Option ℕ → List ℕ → Write
  prep : ℕ → ℕ → List PRepDelegationInfo → Write

-- The number in the key of a write is a uint64.
abbrev pub Fits : Write → Type 0
Fits (header version block_height revision) = Unit
Fits (gv block_height incentive reward main sub) = block_height < modulus
Fits (block block_height generator validator) = block_height < modulus
Fits (prep block_height total_delegation preps) = block_height < modulus

module _ (G : Engine Bytes Bytes) (codecs : Codecs) where
  unfoldable pub apply : Write → G.Table → G.Table
  unfolding write_iiss_header write_iiss_gv write_iiss_bp write_iiss_prep
  apply (header version block_height revision) t =
      write_iiss_header G codecs version block_height revision t
  apply (gv block_height incentive reward main sub) t =
      write_iiss_gv G codecs block_height incentive reward main sub t
  apply (block block_height generator validator) t =
      (write_iiss_bp G codecs block_height generator validator t).0
  apply (prep block_height total_delegation preps) t =
      (write_iiss_prep G codecs block_height total_delegation preps t).0

  unfoldable pub apply_all : List Write → G.Table → G.Table
  unfolding apply
  apply_all [] t = t
  apply_all (w ∷ ws) t = apply_all ws (apply w t)

-- The last header, over one from before.
unfoldable pub header_after : List Write → Option IissHeader → Option IissHeader
header_after [] h = h
header_after (header version block_height revision ∷ ws) h =
    header_after ws
      (some (record { version = version; block_height = block_height; revision = revision }))
header_after (w ∷ ws) h = header_after ws h

-- Data of version 1 has no counts of P-Reps, and no revision.
abbrev pub as_version : ℕ → IissGvData → IissGvData
as_version version d =
    if version == 1 then record d { main_prep_count = 0; sub_prep_count = 0 } else d

abbrev pub with_revision : IissHeader → IissHeader
with_revision h = if h.version == 1 then record h { revision = 0 } else h

-- The last governance variable of a height, block or P-Rep list, over one from before.
abbrev pub gv_by : ℕ → Write → ℕ → Option IissGvData → Option IissGvData
gv_by version (gv block_height incentive reward main sub) n o =
    if block_height == n
    then some (
        as_version version (record {
          incentive_rep = incentive;
          reward_rep = reward;
          main_prep_count = main;
          sub_prep_count = sub;
        }))
    else o
gv_by version w n o = o

-- Refused without a generator or validators.
abbrev pub block_by : Write → ℕ → Option IissBlockProduceInfoData → Option IissBlockProduceInfoData
block_by (block block_height (some generator) (v ∷ validator)) n o =
    if block_height == n
    then some (record { generator = generator; validator = v ∷ validator })
    else o
block_by w n o = o

-- Refused without P-Reps.
abbrev pub prep_by : Write → ℕ → Option PRepData → Option PRepData
prep_by (prep block_height total_delegation (p ∷ preps)) n o =
    if block_height == n
    then some (record { total_delegation = pos total_delegation; delegations = p ∷ preps })
    else o
prep_by w n o = o

module _ {D : Type 0} (by : Write → ℕ → Option D → Option D) where
  unfoldable pub after : List Write → ℕ → Option D → Option D
  after [] n o = o
  after (w ∷ ws) n o = after ws n (by w n o)
