-- ===== src/Context/Load/Restart.antt =====
-- The context after a restart: what NewContext reads is what was in memory.
use rewardcalculator.Base.{
  ℕ, nat_eq, ◌<◌, ◌≡◌, refl, sym, ap, ◌∙◌, arith, Bool, true, Option, none, some, List, [], ◌∷◌,
  ltb, lookup, All, Entries, Entries-of_lookup,
}
use rewardcalculator.Base.Words.{modulus}
use rewardcalculator.Base.Bytes.{Bytes, bytes_eq, before, has_prefix, has_prefix-append}
use rewardcalculator.Db.Engine.{Engine}
use rewardcalculator.Db.Codec.{Codec}
use rewardcalculator.Db.Key.{internal_key}
use rewardcalculator.Db.Ordered.{Ordered}
use rewardcalculator.Db.Load.Numbered.{IsBucket, view, found_inside}
use rewardcalculator.Db.Load.Reload.{entries_of, load_bucket-entries_of}
use rewardcalculator.Address.{number_of}
use rewardcalculator.Address.RoundTrip.{IsAddress}
use rewardcalculator.Context.Info.{DbInfoData}
use rewardcalculator.Context.Periods.{IsAscending}
use rewardcalculator.Context.Governance.{
  GovernanceVariable, set_reward, gv_height, PRep, prep_height,
}
use rewardcalculator.Context.Candidates.{PRepCandidate}
use rewardcalculator.Context.Load.{
  DbInfoDataV1, GvData, PRepData, prefix_management, prefix_governance_variable, prefix_prep,
  prefix_prep_candidate, db_info_set_bytes, new_db_info_from, gv_set_bytes, prep_set_bytes,
  sort_gvs, sorted, load_governance_variable, load_prep, load_prep_candidate, Loaded, new_context,
}
use rewardcalculator.Context.Load.Candidates.{candidate_key, IsCandidate, stored, put_all-IsFilled}

-- What is written of a governance variable and of a P-Rep list.
abbrev pub gv_data : GovernanceVariable → GvData
gv_data gv = record {
  calculated_incentive_rep = gv.calculated_incentive_rep;
  reward_rep = gv.reward_rep;
  main_prep_count = gv.main_prep_count;
  sub_prep_count = gv.sub_prep_count;
}

abbrev pub prep_data : PRep → PRepData
prep_data prep = record { total_delegation = prep.total_delegation; delegations = prep.delegations }

abbrev pub decoded_gv : GovernanceVariable → GvData × Bool
decoded_gv gv = (gv_data gv, true)

abbrev pub decoded_prep : PRep → PRepData × Bool
decoded_prep prep = (prep_data prep, true)

-- The list is in order already.
sort_gvs-IsAscending : (l : List GovernanceVariable) → IsAscending gv_height l → sort_gvs l ≡ l
unfolding sort_gvs
sort_gvs-IsAscending [] up = refl
sort_gvs-IsAscending (gv ∷ []) up = refl
sort_gvs-IsAscending (gv ∷ b ∷ l) up =
    let first : ltb gv.block_height b.block_height ≡ true = ground (arith, up.0.0) in
    rw (sort_gvs-IsAscending (b ∷ l) up.1, first) refl

abbrev pub gv_decode : Codec GvData → Bytes → Option (GvData × Bool)
gv_decode codec value = some (codec.unmarshal value)

abbrev pub prep_decode : Codec PRepData → Bytes → Option (PRepData × Bool)
prep_decode codec value = some (codec.unmarshal value)

module _ (G : Engine Bytes Bytes) (info_codec : Codec DbInfoData) (v1_codec : Codec DbInfoDataV1)
    (gv_codec : Codec GvData) (prep_codec : Codec PRepData)
    (candidate_codec : Codec PRepCandidate) where
  -- The management DB holds the DB information, the governance variables and the P-Rep lists under
  -- their heights, and the candidates under their addresses, and nothing else in these buckets.
  pub record Saved (t : G.Table) (info : DbInfoData) (gvs : List GovernanceVariable)
      (preps : List PRep) (candidates : List (ℕ × PRepCandidate)) : Type 0 where
    pub info_saved : G.get t (internal_key prefix_management []) ≡ some (info_codec.marshal info)
    pub gv_bucket : IsBucket (gv_decode gv_codec) prefix_governance_variable gv_set_bytes G t
    pub gvs_saved :
        (n : ℕ)
        → n < modulus
        → view (gv_decode gv_codec) prefix_governance_variable gv_set_bytes G t n
          ≡ lookup n (entries_of gv_height decoded_gv gvs)
    pub prep_bucket : IsBucket (prep_decode prep_codec) prefix_prep prep_set_bytes G t
    pub preps_saved :
        (n : ℕ)
        → n < modulus
        → view (prep_decode prep_codec) prefix_prep prep_set_bytes G t n
          ≡ lookup n (entries_of prep_height decoded_prep preps)
    pub candidate_bucket :
        (key value : Bytes)
        → has_prefix prefix_prep_candidate key ≡ true
        → G.get t key ≡ some value
        → IsCandidate key value
    pub candidates_saved :
        (a : Bytes)
        → IsAddress a
        → stored candidate_codec (G.get t (candidate_key a)) none ≡ lookup (number_of a) candidates

  -- What the memory holds, in order and with the rewards of its governance variables set.
  pub record Kept (gvs : List GovernanceVariable) (preps : List PRep) : Type 0 where
    pub gvs_ascend : IsAscending gv_height gvs
    pub gvs_fit : All (λ (gv : GovernanceVariable). gv.block_height < modulus) gvs
    pub rewards_set : All (λ (gv : GovernanceVariable). set_reward gv ≡ gv) gvs
    pub preps_ascend : IsAscending prep_height preps
    pub preps_fit : All (λ (prep : PRep). prep.block_height < modulus) preps

  -- What NewContext gives for a DB that was saved from the memory.
  pub record Restarted (t : G.Table) (info : DbInfoData) (gvs : List GovernanceVariable)
      (preps : List PRep) (candidates : List (ℕ × PRepCandidate)) (result : Option (Loaded G))
      : Type 0 where
    pub candidates' : List (ℕ × PRepCandidate)
    pub is :
        result
        ≡ some
            (record { info = info; gvs = gvs; preps = preps; candidates = candidates'; table = t })
    pub same_candidates :
        (a : Bytes)
        → IsAddress a
        → lookup (number_of a) candidates' ≡ lookup (number_of a) candidates

  made_gvs :
      (l : List GovernanceVariable)
      → All (λ (gv : GovernanceVariable). set_reward gv ≡ gv) l
      → All (λ gv. gv_set_bytes (gv_height gv) (decoded_gv gv) ≡ gv) l
  unfolding gv_set_bytes set_reward
  made_gvs [] h = tt
  made_gvs (gv ∷ l) h = (h.0, made_gvs l h.1)

  made_preps : (l : List PRep) → All (λ p. prep_set_bytes (prep_height p) (decoded_prep p) ≡ p) l
  unfolding prep_set_bytes
  made_preps [] = tt
  made_preps (prep ∷ l) = (refl, made_preps l)

  load_governance_variable-Saved :
      (t : G.Table) (info : DbInfoData) (gvs : List GovernanceVariable) (preps : List PRep)
      (candidates : List (ℕ × PRepCandidate))
      → Ordered before G
      → Saved t info gvs preps candidates
      → Kept gvs preps
      → load_governance_variable G gv_codec t ≡ some gvs
  unfolding load_governance_variable
  load_governance_variable-Saved t info gvs preps candidates ordered saved kept =
      ap sorted (
        load_bucket-entries_of (gv_decode gv_codec) prefix_governance_variable gv_set_bytes
          gv_height decoded_gv G t gvs ordered saved.gv_bucket kept.gvs_ascend kept.gvs_fit
          (made_gvs gvs kept.rewards_set) saved.gvs_saved)
      ∙ ap some (sort_gvs-IsAscending gvs kept.gvs_ascend)

  load_prep-Saved :
      (t : G.Table) (info : DbInfoData) (gvs : List GovernanceVariable) (preps : List PRep)
      (candidates : List (ℕ × PRepCandidate))
      → Ordered before G
      → Saved t info gvs preps candidates
      → Kept gvs preps
      → load_prep G prep_codec t ≡ some preps
  unfolding load_prep
  load_prep-Saved t info gvs preps candidates ordered saved kept =
      load_bucket-entries_of (prep_decode prep_codec) prefix_prep prep_set_bytes prep_height
        decoded_prep G t preps ordered saved.prep_bucket kept.preps_ascend kept.preps_fit
        (made_preps preps) saved.preps_saved

  new_db_info-Saved :
      (t : G.Table) (info : DbInfoData) (db_count : ℕ)
      → G.get t (internal_key prefix_management []) ≡ some (info_codec.marshal info)
      → new_db_info_from G info_codec v1_codec db_count t ≡ some (info, t)
  unfolding new_db_info_from db_info_set_bytes
  new_db_info-Saved t info db_count h =
      rw (h, info_codec.unmarshal-marshal info, new_db_info_from) refl

  IsCandidate-entries :
      (t : G.Table)
      → ((key value : Bytes)
          → has_prefix prefix_prep_candidate key ≡ true
          → G.get t key ≡ some value
          → IsCandidate key value)
      → Entries IsCandidate (G.iterate t (has_prefix prefix_prep_candidate))
  IsCandidate-entries t is =
      Entries-of_lookup IsCandidate (G.iterate t (has_prefix prefix_prep_candidate))
        (G.iterate-DistinctKeys t (has_prefix prefix_prep_candidate))
        (λ key value found.
          let inside =
            found_inside (has_prefix prefix_prep_candidate key) (G.get t key) value
              (sym (G.lookup-iterate t (has_prefix prefix_prep_candidate) key) ∙ found) in
          is key value inside.0 inside.1)

  -- From an engine whose iterator keeps the order of the keys, and a management DB that holds what
  -- was in memory, the heights being uint64s that rise, and the rewards of the governance variables
  -- set: NewContext reads the DB information, the governance variables and the P-Rep lists as they
  -- were, and the candidate of every address, and writes nothing.
  pub new_context-Restarted :
      (t : G.Table) (info : DbInfoData) (gvs : List GovernanceVariable) (preps : List PRep)
      (candidates : List (ℕ × PRepCandidate)) (db_count : ℕ)
      → Ordered before G
      → Saved t info gvs preps candidates
      → Kept gvs preps
      → Restarted t info gvs preps candidates
          (new_context G info_codec v1_codec gv_codec prep_codec candidate_codec db_count t)
  unfolding new_context load_prep_candidate internal_key
  new_context-Restarted t info gvs preps candidates db_count ordered saved kept =
      let entries = G.iterate t (has_prefix prefix_prep_candidate) in
      let put =
        put_all-IsFilled candidate_codec entries []
          (G.iterate-DistinctKeys t (has_prefix prefix_prep_candidate))
          (IsCandidate-entries t saved.candidate_bucket) in
      record {
        candidates' = put.result;
        is =
            rw
              (
                new_db_info-Saved t info db_count saved.info_saved,
                load_governance_variable-Saved t info gvs preps candidates ordered saved kept,
                load_prep-Saved t info gvs preps candidates ordered saved kept,
                put.is,
                new_context,
              )
              refl;
        same_candidates = λ a is.
            put.complete a is
            ∙ ap (λ o. stored candidate_codec o none)
                (G.lookup-iterate t (has_prefix prefix_prep_candidate) (candidate_key a)
                  ∙ rw (has_prefix-append prefix_prep_candidate a) refl)
            ∙ saved.candidates_saved a is;
      }
