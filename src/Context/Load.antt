-- ===== src/Context/Load.antt =====
-- The loading of the management DB: DBInfo.SetBytes, backwardCompatibility, NewDBInfo,
-- LoadGovernanceVariable, LoadPRep and LoadPRepCandidate of core/db_management.go, with the SetBytes
-- methods that they call, and NewContext of core/context.go. The engine has bytes for keys and
-- values.
pub mod Candidates
pub mod Restart
use rewardcalculator.Base.{
  ℕ, nat_eq, Bool, true, false, Option, none, some, List, [], ◌∷◌, ltb, if◌then◌else◌, insert,
  length, drop,
}
use rewardcalculator.Base.Int.{ℤ}
use rewardcalculator.Base.Bytes.{Bytes, bytes_eq, has_prefix}
use rewardcalculator.Db.Engine.{Engine}
use rewardcalculator.Db.Codec.{Codec, checked}
use rewardcalculator.Db.Key.{internal_key, height_of_key}
use rewardcalculator.Db.Load.{load_bucket}
use rewardcalculator.Address.{new_address, number_of}
use rewardcalculator.Context.Info.{BlockInfo, DbInfoData}
use rewardcalculator.Context.Governance.{GovernanceVariable, set_reward, PRepDelegationInfo, PRep}
use rewardcalculator.Context.Candidates.{PRepCandidate}

abbrev pub prefix_management : Bytes
prefix_management = b'M' ∷ b'I' ∷ []

abbrev pub prefix_governance_variable : Bytes
prefix_governance_variable = b'G' ∷ b'V' ∷ []

abbrev pub prefix_prep_candidate : Bytes
prefix_prep_candidate = b'P' ∷ b'C' ∷ []

abbrev pub prefix_prep : Bytes
prefix_prep = b'P' ∷ b'R' ∷ []

pub record DbInfoDataV1 : Type 0 where
  pub db_count : ℕ
  pub block_height : ℕ
  pub query_db_is_zero : Bool

pub record GvData : Type 0 where
  pub calculated_incentive_rep : ℕ
  pub reward_rep : ℕ
  pub main_prep_count : ℕ
  pub sub_prep_count : ℕ

pub record PRepData : Type 0 where
  pub total_delegation : ℤ
  pub delegations : List PRepDelegationInfo

-- `new(DBInfo)`
abbrev pub new_db_info : DbInfoData
new_db_info = record {
  db_count = 0;
  query_db_is_zero = false;
  current = record { block_height = 0; block_hash = 0 };
  calc_done = 0;
  prev_calc_done = 0;
  calculating = 0;
  toggle_bh = 0;
}

-- DBInfo.backwardCompatibility, of what the decoder of the current version left.
unfoldable pub backward_compatibility : DbInfoData → DbInfoDataV1 × Bool → Option DbInfoData
backward_compatibility info (v1, false) = none
backward_compatibility info (v1, true) = some (record info {
  db_count = v1.db_count;
  query_db_is_zero = v1.query_db_is_zero;
  calc_done = v1.block_height;
  prev_calc_done = v1.block_height;
  calculating = v1.block_height;
})

-- DBInfo.SetBytes
unfoldable pub db_info_set_bytes : Codec DbInfoData → Codec DbInfoDataV1 → Bytes → Option DbInfoData
unfolding backward_compatibility
db_info_set_bytes codec v1 bs =
    let (info, ok) = codec.unmarshal bs in
    if ok then some info else backward_compatibility info (v1.unmarshal bs)

-- `none` where the source panics.
unfoldable pub new_db_info_from :
    (G : Engine Bytes Bytes)
    → Codec DbInfoData
    → Codec DbInfoDataV1
    → ℕ
    → G.Table
    → Option (DbInfoData × G.Table)
unfolding db_info_set_bytes
new_db_info_from G codec v1 db_count t = elim (G.get t (internal_key prefix_management [])) [
  | some bs ↦ elim (db_info_set_bytes codec v1 bs) [ none ↦ none | some info ↦ some (info, t) ]
  | none ↦
      let info = record new_db_info { db_count = db_count } in
      some (info, G.set t (internal_key prefix_management []) (codec.marshal info))
]

-- GovernanceVariable.SetBytes into a new value, which leaves the rewards alone after an error.
unfoldable pub gv_set_bytes : ℕ → GvData × Bool → GovernanceVariable
unfolding set_reward
gv_set_bytes block_height (d, ok) =
    let gv : GovernanceVariable = record {
      block_height = block_height;
      calculated_incentive_rep = d.calculated_incentive_rep;
      reward_rep = d.reward_rep;
      main_prep_count = d.main_prep_count;
      sub_prep_count = d.sub_prep_count;
      block_produce_reward = 0;
      prep_reward = 0;
    } in
    if ok then set_reward gv else gv

-- PRep.SetBytes into a new value, whose error LoadPRep does not look at.
unfoldable pub prep_set_bytes : ℕ → PRepData × Bool → PRep
prep_set_bytes block_height (d, ok) = record {
  block_height = block_height;
  total_delegation = d.total_delegation;
  delegations = d.delegations;
}

-- sort.Slice by the block height
abbrev pub place_gv : GovernanceVariable → List GovernanceVariable → List GovernanceVariable
place_gv gv [] = gv ∷ []
place_gv gv (b ∷ l) =
    let rest = place_gv gv l in if ltb gv.block_height b.block_height then gv ∷ b ∷ l else b ∷ rest

unfoldable pub sort_gvs : List GovernanceVariable → List GovernanceVariable
sort_gvs [] = []
sort_gvs (gv ∷ l) = place_gv gv (sort_gvs l)

abbrev pub sorted : Option (List GovernanceVariable) → Option (List GovernanceVariable)
sorted none = none
sorted (some l) = some (sort_gvs l)

abbrev pub insert_at :
    Option Bytes → PRepCandidate → List (ℕ × PRepCandidate) → Option (List (ℕ × PRepCandidate))
insert_at none p m = none
insert_at (some address) p m = some (insert (number_of address) p m)

-- The loop of LoadPRepCandidate over the entries, which gives the map behind it; `none` where
-- NewAddress panics.
unfoldable pub put_all :
    Codec PRepCandidate
    → List (Bytes × Bytes)
    → List (ℕ × PRepCandidate)
    → Option (List (ℕ × PRepCandidate))
unfolding new_address number_of
put_all codec [] m = some m
put_all codec ((key, value) ∷ rest) m =
    elim (insert_at (new_address (some (drop (length prefix_prep_candidate) key)))
      (codec.unmarshal value).0 m) [ none ↦ none | some m' ↦ put_all codec rest m' ]

module _ (G : Engine Bytes Bytes) where
  unfoldable pub load_governance_variable :
      Codec GvData → G.Table → Option (List GovernanceVariable)
  unfolding gv_set_bytes load_bucket sort_gvs
  load_governance_variable codec t = sorted (
      load_bucket G prefix_governance_variable
        (λ key value.
          some
            (gv_set_bytes (height_of_key prefix_governance_variable key) (codec.unmarshal value)))
        t)

  unfoldable pub load_prep : Codec PRepData → G.Table → Option (List PRep)
  unfolding load_bucket prep_set_bytes
  load_prep codec t =
      load_bucket G prefix_prep
        (λ key value. some (prep_set_bytes (height_of_key prefix_prep key) (codec.unmarshal value)))
        t

  unfoldable pub load_prep_candidate :
      Codec PRepCandidate → G.Table → Option (List (ℕ × PRepCandidate))
  unfolding put_all
  load_prep_candidate codec t = put_all codec (G.iterate t (has_prefix prefix_prep_candidate)) []

  -- What NewContext reads.
  pub record Loaded : Type 0 where
    pub info : DbInfoData
    pub gvs : List GovernanceVariable
    pub preps : List PRep
    pub candidates : List (ℕ × PRepCandidate)
    pub table : G.Table

  abbrev pub loaded_with :
      DbInfoData
      → G.Table
      → Option (List (ℕ × PRepCandidate))
      → Option (List GovernanceVariable)
      → Option (List PRep)
      → Option Loaded
  loaded_with info t (some candidates) (some gvs) (some preps) =
      some (record { info = info; gvs = gvs; preps = preps; candidates = candidates; table = t })
  loaded_with info t candidates gvs preps = none

  -- The reading of the management DB in NewContext; the DBs that it opens besides are not in it.
  unfoldable pub new_context :
      Codec DbInfoData
      → Codec DbInfoDataV1
      → Codec GvData
      → Codec PRepData
      → Codec PRepCandidate
      → ℕ
      → G.Table
      → Option Loaded
  unfolding new_db_info_from load_governance_variable load_prep load_prep_candidate
  new_context info_codec v1_codec gv_codec prep_codec candidate_codec db_count t =
      elim (new_db_info_from G info_codec v1_codec db_count t) [
        | none ↦ none
        | some (info, t') ↦
            loaded_with info t' (load_prep_candidate candidate_codec t')
              (load_governance_variable gv_codec t') (load_prep prep_codec t')
      ]
