-- ===== src/Iiss/RestartTests.antt =====
-- The reading of a management DB at concrete values.
use rewardcalculator.Base.{
  ℕ, nat_eq, ◌<◌, ◌≡◌, ◌≢◌, refl, sym, ap, ◌∙◌, arith, true, false, none, some, [], ◌∷◌, ◌++◌, ◌==◌,
  replicate, if◌then◌else◌, lookup, Bool-cases, inl, inr,
}
use rewardcalculator.Base.Int.{pos}
use rewardcalculator.Base.Words.{modulus}
use rewardcalculator.Base.Bytes.{
  Bytes, bytes_eq, bytes_beq, bytes_beq_iff, before, before_trans, before_connex, has_prefix,
}
use rewardcalculator.Db.Engine.{Engine}
use rewardcalculator.Db.MapDb as MapDb
use rewardcalculator.Db.Key.{internal_key}
use rewardcalculator.Db.Ordered.Sorted as Sorted
use rewardcalculator.Db.Load.Numbered.{
  key_of, IsBucket, view, IsBucket-set, IsBucket-set_outside, view-set, view-set_outside,
}
use rewardcalculator.Db.Load.Reload.{entries_of}
use rewardcalculator.Db.Key.Order.{zeros-AreBytes}
use rewardcalculator.Address.{number_of}
use rewardcalculator.Address.RoundTrip.{IsAddress}
use rewardcalculator.Address.Number.{number_of-injective}
use rewardcalculator.Context.Info.{DbInfoData}
use rewardcalculator.Context.Governance.{
  gv_height, prep_height, GovernanceVariable, PRep, set_reward,
}
use rewardcalculator.Context.Candidates.{PRepCandidate}
use rewardcalculator.Context.Load.{
  new_context, prefix_management, prefix_governance_variable, prefix_prep, prefix_prep_candidate,
  gv_set_bytes, prep_set_bytes,
}
use rewardcalculator.Context.Load.Candidates.{candidate_key, IsCandidate, stored}
use rewardcalculator.Context.Load.Restart.{
  Saved, Kept, Restarted, new_context-Restarted, gv_decode, prep_decode, gv_data, prep_data,
  decoded_gv, decoded_prep,
}
use rewardcalculator.Iiss.TestCodecs.{info_codec, v1_codec, gv_codec, prep_codec, candidate_codec}

abbrev db : Engine Bytes Bytes
db = Sorted.engine before before_trans before_connex

abbrev info : DbInfoData
info = record {
  db_count = 2;
  query_db_is_zero = true;
  current = record { block_height = 41; block_hash = 5 };
  calc_done = 10;
  prev_calc_done = 5;
  calculating = 10;
  toggle_bh = 11;
}

abbrev gv : GovernanceVariable
gv = record {
  block_height = 10;
  calculated_incentive_rep = 2;
  reward_rep = 3;
  main_prep_count = 22;
  sub_prep_count = 78;
  block_produce_reward = 22000;
  prep_reward = 200000;
}

abbrev prep : PRep
prep = record {
  block_height = 11;
  total_delegation = pos 50;
  delegations = record { address = 7; delegated_amount = pos 50 } ∷ [];
}

abbrev candidate : PRepCandidate
candidate = record { start = 3; end = 0 }

abbrev address : Bytes
address = 0 ∷ replicate 19 0 ++ 7 ∷ []

abbrev only_info : db.Table
only_info =
    db.set (MapDb.empty Bytes Bytes) (internal_key prefix_management []) (info_codec.marshal info)

abbrev one_gv : db.Table
one_gv = db.set only_info (key_of prefix_governance_variable 10) (gv_codec.marshal (gv_data gv))

abbrev one_prep : db.Table
one_prep = db.set one_gv (key_of prefix_prep 11) (prep_codec.marshal (prep_data prep))

abbrev saved : db.Table
saved = db.set one_prep (candidate_key address) (candidate_codec.marshal candidate)

address-IsAddress : IsAddress address
address-IsAddress = record {
  contract = false;
  id = replicate 19 0 ++ 7 ∷ [];
  is = refl;
  long = refl;
  are_bytes = zeros-AreBytes 19 (7 ∷ []) (omega arith, tt);
}

true-false : true ≢ false
true-false h = cc

none-some : {v : Bytes} → none ≢ some v
none-some h = cc

empty_gv-IsBucket :
    IsBucket
      (gv_decode gv_codec)
      prefix_governance_variable
      gv_set_bytes
      db
      (MapDb.empty Bytes Bytes)
empty_gv-IsBucket k v inside h = cc

gv-IsBucket : IsBucket (gv_decode gv_codec) prefix_governance_variable gv_set_bytes db saved
unfolding internal_key has_prefix
gv-IsBucket =
    let decode = gv_decode gv_codec in
    let p = prefix_governance_variable in
    IsBucket-set_outside decode p gv_set_bytes db one_prep _ _ refl (
      IsBucket-set_outside decode p gv_set_bytes db one_gv _ _ refl (
        IsBucket-set decode p gv_set_bytes db only_info 10 _ (gv_data gv, true) (omega arith) refl
          (IsBucket-set_outside decode p gv_set_bytes db (MapDb.empty Bytes Bytes) _ _ refl
            empty_gv-IsBucket)))

empty_prep-IsBucket :
    IsBucket (prep_decode prep_codec) prefix_prep prep_set_bytes db (MapDb.empty Bytes Bytes)
empty_prep-IsBucket k v inside h = cc

prep-IsBucket : IsBucket (prep_decode prep_codec) prefix_prep prep_set_bytes db saved
unfolding internal_key has_prefix
prep-IsBucket =
    let decode = prep_decode prep_codec in
    IsBucket-set_outside decode prefix_prep prep_set_bytes db one_prep _ _ refl (
      IsBucket-set decode prefix_prep prep_set_bytes db one_gv 11 _ (prep_data prep, true)
        (omega arith) refl
        (IsBucket-set_outside decode prefix_prep prep_set_bytes db only_info _ _ refl (
          IsBucket-set_outside decode prefix_prep prep_set_bytes db (MapDb.empty Bytes Bytes) _ _
            refl empty_prep-IsBucket)))

gvs_saved :
    (n : ℕ)
    → n < modulus
    → view (gv_decode gv_codec) prefix_governance_variable gv_set_bytes db saved n
      ≡ lookup n (entries_of gv_height decoded_gv (gv ∷ []))
unfolding internal_key has_prefix entries_of view
gvs_saved n small =
    let decode = gv_decode gv_codec in
    let p = prefix_governance_variable in
    view-set_outside decode p gv_set_bytes db one_prep _ _ n refl
    ∙ view-set_outside decode p gv_set_bytes db one_gv _ _ n refl
    ∙ view-set decode p gv_set_bytes db only_info 10 _ n (omega arith) small
    ∙ ap (λ o. if 10 == n then some (gv_data gv, true) else o)
        (view-set_outside decode p gv_set_bytes db (MapDb.empty Bytes Bytes) _ _ n refl)

preps_saved :
    (n : ℕ)
    → n < modulus
    → view (prep_decode prep_codec) prefix_prep prep_set_bytes db saved n
      ≡ lookup n (entries_of prep_height decoded_prep (prep ∷ []))
unfolding internal_key has_prefix entries_of view
preps_saved n small =
    let decode = prep_decode prep_codec in
    view-set_outside decode prefix_prep prep_set_bytes db one_prep _ _ n refl
    ∙ view-set decode prefix_prep prep_set_bytes db one_gv 11 _ n (omega arith) small
    ∙ ap (λ o. if 11 == n then some (prep_data prep, true) else o)
        (view-set_outside decode prefix_prep prep_set_bytes db only_info _ _ n refl
          ∙ view-set_outside decode prefix_prep prep_set_bytes db (MapDb.empty Bytes Bytes) _ _ n
              refl)

-- A write outside of the candidates is none of theirs.
not_theirs :
    (t : db.Table) (k value key v : Bytes)
    → has_prefix prefix_prep_candidate k ≡ false
    → has_prefix prefix_prep_candidate key ≡ true
    → db.get (db.set t k value) key ≡ some v
    → db.get t key ≡ some v
not_theirs t k value key v outside inside h =
    let there = sym (db.get-set t k value key) ∙ h in
    elim (Bool-cases (bytes_beq k key)) [
      | inl own ↦
          let same : k ≡ key = (bytes_beq_iff k key).0 own in
          absurd
            (true-false (sym inside ∙ ap (has_prefix prefix_prep_candidate) (sym same) ∙ outside))
      | inr other ↦ rw other at there
    ]

IsCandidate-bucket :
    (key value : Bytes)
    → has_prefix prefix_prep_candidate key ≡ true
    → db.get saved key ≡ some value
    → IsCandidate key value
unfolding has_prefix internal_key
IsCandidate-bucket key value inside h =
    let there = sym (db.get-set one_prep (candidate_key address) _ key) ∙ h in
    elim (Bool-cases (bytes_beq (candidate_key address) key)) [
      | inl own ↦ record {
        address = address;
        is_address = address-IsAddress;
        is_key = sym ((bytes_beq_iff (candidate_key address) key).0 own);
      }
      | inr other ↦ absurd (
          none-some (
            not_theirs (MapDb.empty Bytes Bytes) _ _ key value refl inside (
              not_theirs only_info _ _ key value refl inside
                (not_theirs one_gv _ _ key value refl inside (rw other at there)))))
    ]

candidates_saved :
    (a : Bytes)
    → IsAddress a
    → stored candidate_codec (db.get saved (candidate_key a)) none
      ≡ lookup (number_of a) ((number_of address, candidate) ∷ [])
unfolding internal_key bytes_beq
candidates_saved a is =
    let numbers = number_of-injective address a address-IsAddress is in
    ap (λ o. stored candidate_codec o none)
      (db.get-set one_prep (candidate_key address) _ (candidate_key a))
    ∙ (elim (Bool-cases (bytes_beq address a)) [
      | inl own ↦ rw (numbers, own) refl
      | inr other ↦ rw (numbers, other) refl
    ])

whole :
    Saved db info_codec v1_codec gv_codec prep_codec candidate_codec saved info
      (gv ∷ [])
      (prep ∷ [])
      ((number_of address, candidate) ∷ [])
unfolding bytes_beq internal_key
whole = record {
  info_saved = refl;
  gv_bucket = gv-IsBucket;
  gvs_saved = gvs_saved;
  prep_bucket = prep-IsBucket;
  preps_saved = preps_saved;
  candidate_bucket = IsCandidate-bucket;
  candidates_saved = candidates_saved;
}

kept : Kept db info_codec v1_codec gv_codec prep_codec candidate_codec (gv ∷ []) (prep ∷ [])
unfolding set_reward
kept = record {
  gvs_ascend = (tt, tt);
  gvs_fit = (omega arith, tt);
  rewards_set = (refl, tt);
  preps_ascend = (tt, tt);
  preps_fit = (omega arith, tt);
}

new_context-Restarted_example :
    Restarted db info_codec v1_codec gv_codec prep_codec candidate_codec saved info
      (gv ∷ [])
      (prep ∷ [])
      ((number_of address, candidate) ∷ [])
      (new_context db info_codec v1_codec gv_codec prep_codec candidate_codec 4 saved)
new_context-Restarted_example =
    new_context-Restarted db info_codec v1_codec gv_codec prep_codec candidate_codec saved info
      (gv ∷ []) (prep ∷ []) ((number_of address, candidate) ∷ []) 4
      (Sorted.is_ordered before before_trans before_connex) whole kept
