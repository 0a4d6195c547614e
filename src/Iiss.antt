-- ===== src/Iiss.antt =====
-- The IISS data of core/db_iissdata.go: what the client writes into a DB for a calculation, and what
-- LoadIISSData and the loop of calculateIISSBlockProduce (core/msg_calculate.go) read of it; the
-- delegations of a transaction are in Typed/Delegations. The engine has bytes for keys and values;
-- the MessagePack codec is a parameter.
pub mod Written
pub mod Buckets
pub mod RoundTrip
pub mod TestCodecs
mod Tests
mod RestartTests
use rewardcalculator.Base.{
  ℕ, Bool, true, false, Option, none, some, List, [], ◌∷◌, ◌==◌, if◌then◌else◌,
}
use rewardcalculator.Base.Int.{pos}
use rewardcalculator.Base.Bytes.{Bytes, bytes_eq, has_prefix}
use rewardcalculator.Db.Engine.{Engine}
use rewardcalculator.Db.Codec.{Codec}
use rewardcalculator.Db.Key.{internal_key, id, height_of_key}
use rewardcalculator.Db.Load.{load_bucket, load_each}
use rewardcalculator.Context.Governance.{IissGovernanceVariable, PRepDelegationInfo, PRep}
use rewardcalculator.Context.Load.{PRepData, load_prep}
use rewardcalculator.Calculate.Produce.{IissBlockProduceInfo}

abbrev pub prefix_iiss_header : Bytes
prefix_iiss_header = b'H' ∷ b'D' ∷ []

abbrev pub prefix_iiss_gv : Bytes
prefix_iiss_gv = b'G' ∷ b'V' ∷ []

abbrev pub prefix_iiss_bp_info : Bytes
prefix_iiss_bp_info = b'B' ∷ b'P' ∷ []

abbrev pub prefix_iiss_prep : Bytes
prefix_iiss_prep = b'P' ∷ b'R' ∷ []

abbrev pub iiss_data_revision_default : ℕ
iiss_data_revision_default = 0

pub record IissHeader : Type 0 where
  pub version : ℕ
  pub block_height : ℕ
  pub revision : ℕ

pub record IissGvData : Type 0 where
  pub incentive_rep : ℕ
  pub reward_rep : ℕ
  pub main_prep_count : ℕ
  pub sub_prep_count : ℕ

pub record IissBlockProduceInfoData : Type 0 where
  pub generator : ℕ
  pub validator : List ℕ

-- IISSHeader.SetBytes: version 1 has no revision.
unfoldable pub header_set_bytes : IissHeader × Bool → Option IissHeader
header_set_bytes (h, false) = none
header_set_bytes (h, true) =
    some (if h.version == 1 then record h { revision = iiss_data_revision_default } else h)

-- IISSGovernanceVariable.SetBytes: version 1 has no counts of P-Reps.
unfoldable pub iiss_gv_set_bytes : ℕ → IissGvData × Bool → Option IissGvData
iiss_gv_set_bytes version (d, false) = none
iiss_gv_set_bytes version (d, true) =
    some (if version == 1 then record d { main_prep_count = 0; sub_prep_count = 0 } else d)

abbrev pub iiss_gv : ℕ → IissGvData → IissGovernanceVariable
iiss_gv block_height d = record {
  block_height = block_height;
  incentive_rep = d.incentive_rep;
  reward_rep = d.reward_rep;
  main_prep_count = d.main_prep_count;
  sub_prep_count = d.sub_prep_count;
}

abbrev pub numbered_gv : ℕ → Option IissGvData → Option IissGovernanceVariable
numbered_gv block_height none = none
numbered_gv block_height (some d) = some (iiss_gv block_height d)

-- IISSBlockProduceInfo.SetBytes
abbrev pub block_of : ℕ → IissBlockProduceInfoData × Bool → Option IissBlockProduceInfo
block_of block_height (d, false) = none
block_of block_height (d, true) =
    some (record { block_height = block_height; generator = d.generator; validator = d.validator })

-- The MessagePack codecs of the buckets.
pub record Codecs : Type 0 where
  pub header : Codec IissHeader
  pub gv : Codec IissGvData
  pub block : Codec IissBlockProduceInfoData
  pub prep : Codec PRepData

module _ (G : Engine Bytes Bytes) (codecs : Codecs) where
  unfoldable pub load_iiss_header : G.Table → Option IissHeader
  unfolding header_set_bytes internal_key
  load_iiss_header t = elim (G.get t (internal_key prefix_iiss_header [])) [
    | none ↦ none
    | some value ↦ header_set_bytes (codecs.header.unmarshal value)
  ]

  unfoldable pub load_iiss_governance_variable : ℕ → G.Table → Option (List IissGovernanceVariable)
  unfolding iiss_gv_set_bytes load_bucket
  load_iiss_governance_variable version t =
      load_bucket G prefix_iiss_gv
        (λ key value.
          numbered_gv (height_of_key prefix_iiss_gv key)
            (iiss_gv_set_bytes version (codecs.gv.unmarshal value)))
        t

  -- The blocks that calculateIISSBlockProduce goes through.
  unfoldable pub load_blocks : G.Table → List IissBlockProduceInfo
  unfolding load_each
  load_blocks t =
      load_each
        (λ key value.
          block_of (height_of_key prefix_iiss_bp_info key) (codecs.block.unmarshal value))
        (G.iterate t (has_prefix prefix_iiss_bp_info))

  abbrev pub loaded :
      IissHeader
      → Option (List IissGovernanceVariable)
      → Option (List PRep)
      → Option (IissHeader × List IissGovernanceVariable × List PRep)
  loaded header (some gv_list) (some prep_list) = some (header, gv_list, prep_list)
  loaded header gv_list prep_list = none

  unfoldable pub load_iiss_data :
      G.Table → Option (IissHeader × List IissGovernanceVariable × List PRep)
  unfolding load_iiss_header load_iiss_governance_variable load_prep
  load_iiss_data t = elim (load_iiss_header t) [
    | none ↦ none
    | some header ↦
        loaded header (load_iiss_governance_variable header.version t) (load_prep G codecs.prep t)
  ]

  unfoldable pub write_iiss_header : ℕ → ℕ → ℕ → G.Table → G.Table
  unfolding internal_key
  write_iiss_header version block_height revision t = G.set t (internal_key prefix_iiss_header []) (
      codecs.header.marshal
        (record { version = version; block_height = block_height; revision = revision }))

  unfoldable pub write_iiss_gv : ℕ → ℕ → ℕ → ℕ → ℕ → G.Table → G.Table
  unfolding internal_key id
  write_iiss_gv block_height incentive reward main_prep_count sub_prep_count t =
      G.set t (internal_key prefix_iiss_gv (id block_height)) (
        codecs.gv.marshal (record {
          incentive_rep = incentive;
          reward_rep = reward;
          main_prep_count = main_prep_count;
          sub_prep_count = sub_prep_count;
        }))

  -- With an error for an empty generator or no validators. The addresses are those of the strings.
  unfoldable pub write_iiss_bp : ℕ → Option ℕ → List ℕ → G.Table → G.Table × Bool
  unfolding internal_key id
  write_iiss_bp block_height none validator t = (t, false)
  write_iiss_bp block_height (some generator) [] t = (t, false)
  write_iiss_bp block_height (some generator) (v ∷ validator) t = (
    G.set t (internal_key prefix_iiss_bp_info (id block_height))
        (codecs.block.marshal (record { generator = generator; validator = v ∷ validator })),
    true,
  )

  unfoldable pub write_iiss_prep : ℕ → ℕ → List PRepDelegationInfo → G.Table → G.Table × Bool
  unfolding internal_key id
  write_iiss_prep block_height total_delegation [] t = (t, false)
  write_iiss_prep block_height total_delegation (p ∷ preps) t = (
    G.set t (internal_key prefix_iiss_prep (id block_height)) (
        codecs.prep.marshal
          (record { total_delegation = pos total_delegation; delegations = p ∷ preps })),
    true,
  )
