-- ===== src/Iiss/RoundTrip.antt =====
-- What is read of IISS data is what was written last.
use rewardcalculator.Base.{
  ℕ, nat_eq, ◌<◌, ◌≡◌, ◌≢◌, refl, sym, ap, ◌∙◌, Bool, true, false, Option, none, some, List, [],
  ◌∷◌, ltb, ◌==◌, lookup, All, Bool-cases, inl, inr,
}
use rewardcalculator.Base.Words.{modulus}
use rewardcalculator.Base.Bytes.{Bytes, bytes_eq, bytes_beq, before, has_prefix}
use rewardcalculator.Db.Engine.{Engine}
use rewardcalculator.Db.Codec.{checked}
use rewardcalculator.Db.Key.{internal_key, height_of_key}
use rewardcalculator.Db.Load.{load_bucket, load_each, load_each-load_all}
use rewardcalculator.Db.Ordered.{IsSorted, Ordered}
use rewardcalculator.Db.Load.Numbered.{view, made, decoded, item, items, load_bucket-Loaded}
use rewardcalculator.Context.Governance.{IissGovernanceVariable, PRep}
use rewardcalculator.Context.Load.{PRepData, load_prep, prep_set_bytes}
use rewardcalculator.Calculate.Produce.{IissBlockProduceInfo}
use rewardcalculator.Iiss.{
  IissHeader, IissGvData, IissBlockProduceInfoData, Codecs, prefix_iiss_header, prefix_iiss_gv,
  prefix_iiss_prep, prefix_iiss_bp_info, iiss_gv, write_iiss_header, write_iiss_gv, write_iiss_bp,
  write_iiss_prep, load_iiss_data, load_blocks, load_iiss_header, header_set_bytes,
  load_iiss_governance_variable, numbered_gv, block_of,
}
use rewardcalculator.Iiss.Written.{
  Write, header, gv, block, prep, Fits, apply, apply_all, header_after, after, gv_by, block_by,
  prep_by, with_revision,
}
use rewardcalculator.Iiss.Buckets.{
  apply_all-Follows, gv_decode, block_decode, prep_decode, block_made, prep_made, gv_follows,
  block_follows, prep_follows,
}

module _ (G : Engine Bytes Bytes) (codecs : Codecs) where
  abbrev marshalled : Option IissHeader → Option Bytes
  marshalled none = none
  marshalled (some h) = some (codecs.header.marshal h)

  header_key : Bytes
  header_key = internal_key prefix_iiss_header []

  get-header_key :
      (t : G.Table) (k value : Bytes)
      → bytes_beq k header_key ≡ false
      → G.get (G.set t k value) header_key ≡ G.get t header_key
  get-header_key t k value other = G.get-set t k value header_key ∙ rw other refl

  header_stored :
      (w : Write) (t : G.Table) (o : Option IissHeader)
      → G.get t header_key ≡ marshalled o
      → G.get (apply G codecs w t) header_key ≡ marshalled (header_after (w ∷ []) o)
  unfolding apply write_iiss_header write_iiss_gv write_iiss_bp write_iiss_prep header_key bytes_beq
      internal_key header_after
  header_stored (header v bh rev) t o h = G.get-set t header_key _ header_key
  header_stored (gv bh incentive reward main sub) t o h = get-header_key t _ _ refl ∙ h
  header_stored (block bh none validator) t o h = h
  header_stored (block bh (some g) []) t o h = h
  header_stored (block bh (some g) (v ∷ validator)) t o h = get-header_key t _ _ refl ∙ h
  header_stored (prep bh total []) t o h = h
  header_stored (prep bh total (p ∷ preps)) t o h = get-header_key t _ _ refl ∙ h

  header_after-step :
      (w : Write) (ws : List Write) (o : Option IissHeader)
      → header_after ws (header_after (w ∷ []) o) ≡ header_after (w ∷ ws) o
  unfolding header_after
  header_after-step (header v bh rev) ws o = refl
  header_after-step (gv bh incentive reward main sub) ws o = refl
  header_after-step (block bh g validator) ws o = refl
  header_after-step (prep bh total preps) ws o = refl

  headers_stored :
      (ws : List Write) (t : G.Table) (o : Option IissHeader)
      → G.get t header_key ≡ marshalled o
      → G.get (apply_all G codecs ws t) header_key ≡ marshalled (header_after ws o)
  unfolding apply_all header_after
  headers_stored [] t o h = h
  headers_stored (w ∷ ws) t o h =
      headers_stored ws (apply G codecs w t) (header_after (w ∷ []) o) (header_stored w t o h)
      ∙ ap marshalled (header_after-step w ws o)

  -- What is read of a DB: lists in the order of their block heights, with what was written last for
  -- every height.
  pub record Read (ws : List Write) (h : IissHeader) (t : G.Table) : Type 0 where
    pub gvs : List (ℕ × IissGvData)
    pub preps : List (ℕ × PRepData)
    pub blocks : List (ℕ × IissBlockProduceInfoData)
    pub is :
        load_iiss_data G codecs t
        ≡ some (
          with_revision h,
          items (gv_decode codecs h.version) prefix_iiss_gv iiss_gv gvs,
          items (prep_decode codecs) prefix_iiss_prep prep_made preps,
        )
    pub are_blocks :
        load_blocks G codecs t ≡ items (block_decode codecs) prefix_iiss_bp_info block_made blocks
    pub gvs_sorted : IsSorted ltb gvs
    pub preps_sorted : IsSorted ltb preps
    pub blocks_sorted : IsSorted ltb blocks
    pub gvs_last : (n : ℕ) → n < modulus → lookup n gvs ≡ after (gv_by h.version) ws n none
    pub preps_last : (n : ℕ) → n < modulus → lookup n preps ≡ after prep_by ws n none
    pub blocks_last : (n : ℕ) → n < modulus → lookup n blocks ≡ after block_by ws n none

  load_iiss_header-after :
      (t : G.Table) (h : IissHeader)
      → G.get t header_key ≡ some (codecs.header.marshal h)
      → load_iiss_header G codecs t ≡ some (with_revision h)
  unfolding load_iiss_header header_set_bytes header_key
  load_iiss_header-after t h e = rw (e, codecs.header.unmarshal-marshal h, load_iiss_header) refl

  version-with_revision : (h : IissHeader) → (with_revision h).version ≡ h.version
  version-with_revision h = elim (Bool-cases (h.version == 1)) [
    | inl old ↦ rw old refl
    | inr new ↦ rw new refl
  ]

  load_iiss_data-of :
      (t : G.Table) (h : IissHeader) (gv_list : List IissGovernanceVariable) (prep_list : List PRep)
      → load_iiss_header G codecs t ≡ some h
      → load_iiss_governance_variable G codecs h.version t ≡ some gv_list
      → load_prep G codecs.prep t ≡ some prep_list
      → load_iiss_data G codecs t ≡ some (h, gv_list, prep_list)
  unfolding load_iiss_data
  load_iiss_data-of t h gv_list prep_list e e' e'' = rw (e, load_iiss_data) (rw (e', e'') refl)

  numbered_gv-made :
      (version n : ℕ) (o : Option IissGvData)
      → numbered_gv n o ≡ made (gv_decode codecs version) prefix_iiss_gv iiss_gv n o
  numbered_gv-made version n none = refl
  numbered_gv-made version n (some d) = refl

  block_of-made :
      (n : ℕ) (p : IissBlockProduceInfoData × Bool)
      → block_of n p ≡ made (block_decode codecs) prefix_iiss_bp_info block_made n (checked p)
  block_of-made n (d, true) = refl
  block_of-made n (d, false) = refl

  gvs-loaded :
      (version : ℕ) (t : G.Table)
      → load_iiss_governance_variable G codecs version t
        ≡ load_bucket G prefix_iiss_gv (item (gv_decode codecs version) prefix_iiss_gv iiss_gv) t
  unfolding load_iiss_governance_variable
  gvs-loaded version t =
      ap (λ f. load_bucket G prefix_iiss_gv f t)
        (λ i key value.
          numbered_gv-made version (height_of_key prefix_iiss_gv key)
            (gv_decode codecs version value) i)

  blocks-loaded :
      (t : G.Table) (l : List IissBlockProduceInfo)
      → load_bucket G prefix_iiss_bp_info
          (item (block_decode codecs) prefix_iiss_bp_info block_made)
          t
        ≡ some l
      → load_blocks G codecs t ≡ l
  unfolding load_blocks load_bucket
  blocks-loaded t l h =
      ap (λ f. load_each f (G.iterate t (has_prefix prefix_iiss_bp_info)))
        (λ i key value.
          block_of-made (height_of_key prefix_iiss_bp_info key) (codecs.block.unmarshal value) i)
      ∙ load_each-load_all (item (block_decode codecs) prefix_iiss_bp_info block_made)
          (G.iterate t (has_prefix prefix_iiss_bp_info)) l h

  preps-loaded :
      (t : G.Table)
      → load_prep G codecs.prep t
        ≡ load_bucket G prefix_iiss_prep (item (prep_decode codecs) prefix_iiss_prep prep_made) t
  unfolding load_prep prep_set_bytes
  preps-loaded t = refl

  none_yet : (t : G.Table) → ((k : Bytes) → G.get t k ≡ none) → (k v : Bytes) → G.get t k ≢ some v
  none_yet t empty k v h = (let it = sym (empty k) ∙ h in cc)

  -- Into an empty DB, whose iterator keeps the order of the keys: after any writes whose heights are
  -- uint64s, of which one at least is a header, LoadIISSData gives the last header, without a
  -- revision in version 1, and the governance variables and the P-Rep lists, and the calculation
  -- reads the blocks; all in the order of their heights, and for every height what was written last
  -- for it, if it was not refused, the governance variables without counts of P-Reps in version 1.
  pub load_iiss_data-apply_all :
      (ws : List Write) (h : IissHeader) (t : G.Table)
      → Ordered before G
      → ((k : Bytes) → G.get t k ≡ none)
      → All Fits ws
      → header_after ws none ≡ some h
      → Read ws h (apply_all G codecs ws t)
  unfolding view
  load_iiss_data-apply_all ws h t ordered empty fits last =
      let t' = apply_all G codecs ws t in
      let gv_bucket =
        apply_all-Follows G codecs (gv_decode codecs h.version) prefix_iiss_gv iiss_gv
          (gv_by h.version) (gv_follows G codecs h.version) ws t fits
          (λ k v _ e. absurd (none_yet t empty k v e)) in
      let prep_bucket =
        apply_all-Follows G codecs (prep_decode codecs) prefix_iiss_prep prep_made prep_by
          (prep_follows G codecs) ws t fits (λ k v _ e. absurd (none_yet t empty k v e)) in
      let block_bucket =
        apply_all-Follows G codecs (block_decode codecs) prefix_iiss_bp_info block_made block_by
          (block_follows G codecs) ws t fits (λ k v _ e. absurd (none_yet t empty k v e)) in
      let gvs =
        load_bucket-Loaded (gv_decode codecs h.version) prefix_iiss_gv iiss_gv G t' ordered
          gv_bucket.0 in
      let preps =
        load_bucket-Loaded (prep_decode codecs) prefix_iiss_prep prep_made G t' ordered
          prep_bucket.0 in
      let blocks =
        load_bucket-Loaded (block_decode codecs) prefix_iiss_bp_info block_made G t' ordered
          block_bucket.0 in
      let header_is =
        load_iiss_header-after t' h
          (headers_stored ws t none (empty header_key) ∙ ap marshalled last) in
      record {
        gvs = gvs.contents;
        preps = preps.contents;
        blocks = blocks.contents;
        is =
            load_iiss_data-of t' (with_revision h) _ _ header_is
              (ap (λ v. load_iiss_governance_variable G codecs v t') (version-with_revision h)
                ∙ gvs-loaded h.version t'
                ∙ gvs.is)
              (preps-loaded t' ∙ preps.is);
        are_blocks = blocks-loaded t' _ blocks.is;
        gvs_sorted = gvs.in_order;
        preps_sorted = preps.in_order;
        blocks_sorted = blocks.in_order;
        gvs_last = λ n small.
            gvs.complete n small
            ∙ gv_bucket.1 n small
            ∙ ap
                (λ o.
                  after (gv_by h.version) ws n
                    (decoded (gv_decode codecs h.version) prefix_iiss_gv iiss_gv o))
                (empty _);
        preps_last = λ n small.
            preps.complete n small
            ∙ prep_bucket.1 n small
            ∙ ap
                (λ o.
                  after prep_by ws n (decoded (prep_decode codecs) prefix_iiss_prep prep_made o))
                (empty _);
        blocks_last = λ n small.
            blocks.complete n small
            ∙ block_bucket.1 n small
            ∙ ap
                (λ o.
                  after block_by ws n
                    (decoded (block_decode codecs) prefix_iiss_bp_info block_made o))
                (empty _);
      }
