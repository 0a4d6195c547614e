-- ===== src/Iiss/Buckets.antt =====
-- What each write leaves in the buckets.
use rewardcalculator.Base.{
  ℕ, nat_eq, ◌<◌, ◌≡◌, refl, ap, ◌∙◌, Bool, true, false, Option, none, some, List, [], ◌∷◌, ◌==◌,
  if◌then◌else◌, All,
}
use rewardcalculator.Base.Words.{modulus}
use rewardcalculator.Base.Bytes.{Bytes, bytes_eq, has_prefix}
use rewardcalculator.Db.Engine.{Engine}
use rewardcalculator.Db.Codec.{checked}
use rewardcalculator.Db.Key.{internal_key}
use rewardcalculator.Db.Load.Numbered.{
  IsBucket, view, key_of, IsBucket-set, IsBucket-set_outside, view-set, view-set_outside,
}
use rewardcalculator.Context.Governance.{PRep}
use rewardcalculator.Context.Load.{PRepData, prep_set_bytes}
use rewardcalculator.Calculate.Produce.{IissBlockProduceInfo}
use rewardcalculator.Iiss.{
  IissGvData, IissBlockProduceInfoData, Codecs, prefix_iiss_gv, prefix_iiss_prep,
  prefix_iiss_bp_info, iiss_gv_set_bytes, iiss_gv, write_iiss_header, write_iiss_gv, write_iiss_bp,
  write_iiss_prep,
}
use rewardcalculator.Iiss.Written.{
  Write, header, gv, block, prep, Fits, apply, apply_all, after, gv_by, block_by, prep_by,
}

-- A bucket with its codec: what a value decodes to, and what each write puts into it.
module _ {D A : Type 0} (G : Engine Bytes Bytes) (codecs : Codecs) (decode : Bytes → Option D)
    (prefix : Bytes) (make : ℕ → D → A) (by : Write → ℕ → Option D → Option D) where
  -- What a write leaves of the bucket.
  abbrev pub Leaves : G.Table → G.Table → (ℕ → Option D → Option D) → Type 0
  Leaves t t' change =
      IsBucket decode prefix make G t'
      × ((n : ℕ)
          → n < modulus
          → view decode prefix make G t' n ≡ change n (view decode prefix make G t n))

  untouched :
      (t : G.Table) (k value : Bytes)
      → has_prefix prefix k ≡ false
      → IsBucket decode prefix make G t
      → Leaves t (G.set t k value) (λ n o. o)
  untouched t k value outside is = (
    IsBucket-set_outside decode prefix make G t k value outside is,
    λ n h. view-set_outside decode prefix make G t k value n outside,
  )

  touched :
      (t : G.Table) (number : ℕ) (value : Bytes) (d : D)
      → number < modulus
      → decode value ≡ some d
      → IsBucket decode prefix make G t
      → Leaves t (G.set t (key_of prefix number) value) (λ n o. if number == n then some d else o)
  touched t number value d fits decodes is = (
    IsBucket-set decode prefix make G t number value d fits decodes is,
    λ n h. rw (← decodes) (view-set decode prefix make G t number value n fits h),
  )

  -- A write puts into the bucket what `by` tells, and leaves every other entry alone.
  abbrev pub Follows : Type 0
  Follows =
      (w : Write) (t : G.Table)
      → Fits w
      → IsBucket decode prefix make G t
      → IsBucket decode prefix make G (apply G codecs w t)
        × ((n : ℕ)
            → n < modulus
            → view decode prefix make G (apply G codecs w t) n
              ≡ by w n (view decode prefix make G t n))

  pub apply_all-Follows :
      Follows
      → (ws : List Write) (t : G.Table) → All Fits ws
      → IsBucket decode prefix make G t
      → IsBucket decode prefix make G (apply_all G codecs ws t)
        × ((n : ℕ)
            → n < modulus
            → view decode prefix make G (apply_all G codecs ws t) n
              ≡ after by ws n (view decode prefix make G t n))
  unfolding apply_all after
  apply_all-Follows follows [] t fits is = (is, λ n h. refl)
  apply_all-Follows follows (w ∷ ws) t fits is =
      let one = follows w t fits.0 is in
      let rest = apply_all-Follows follows ws (apply G codecs w t) fits.1 one.0 in
      (rest.0, λ n h. rest.1 n h ∙ ap (after by ws n) (one.1 n h))

abbrev pub block_made : ℕ → IissBlockProduceInfoData → IissBlockProduceInfo
block_made n d = record { block_height = n; generator = d.generator; validator = d.validator }

abbrev pub prep_made : ℕ → PRepData → PRep
prep_made n d = prep_set_bytes n (d, true)

module _ (codecs : Codecs) where
  abbrev pub gv_decode : ℕ → Bytes → Option IissGvData
  gv_decode version value = iiss_gv_set_bytes version (codecs.gv.unmarshal value)

  abbrev pub block_decode : Bytes → Option IissBlockProduceInfoData
  block_decode value = checked (codecs.block.unmarshal value)

  abbrev pub prep_decode : Bytes → Option PRepData
  prep_decode value = some (codecs.prep.unmarshal value).0

module _ (G : Engine Bytes Bytes) (codecs : Codecs) where
  pub gv_follows :
      (version : ℕ)
      → Follows G codecs (gv_decode codecs version) prefix_iiss_gv iiss_gv (gv_by version)
  unfolding apply write_iiss_header write_iiss_gv write_iiss_bp write_iiss_prep iiss_gv_set_bytes
      has_prefix internal_key
  gv_follows version (header v bh rev) t fits is =
      untouched G codecs (gv_decode codecs version) prefix_iiss_gv iiss_gv (gv_by version) t _ _
        refl is
  gv_follows version (gv bh incentive reward main sub) t fits is =
      touched G codecs (gv_decode codecs version) prefix_iiss_gv iiss_gv (gv_by version) t bh _ _
        fits (ap (iiss_gv_set_bytes version) (codecs.gv.unmarshal-marshal _)) is
  gv_follows version (block bh none validator) t fits is = (is, λ n h. refl)
  gv_follows version (block bh (some g) []) t fits is = (is, λ n h. refl)
  gv_follows version (block bh (some g) (v ∷ validator)) t fits is =
      untouched G codecs (gv_decode codecs version) prefix_iiss_gv iiss_gv (gv_by version) t _ _
        refl is
  gv_follows version (prep bh total []) t fits is = (is, λ n h. refl)
  gv_follows version (prep bh total (p ∷ preps)) t fits is =
      untouched G codecs (gv_decode codecs version) prefix_iiss_gv iiss_gv (gv_by version) t _ _
        refl is

  pub block_follows :
      Follows G codecs (block_decode codecs) prefix_iiss_bp_info block_made (block_by)
  unfolding apply write_iiss_header write_iiss_gv write_iiss_bp write_iiss_prep iiss_gv_set_bytes
      has_prefix internal_key
  block_follows (header v bh rev) t fits is =
      untouched G codecs (block_decode codecs) prefix_iiss_bp_info block_made (block_by) t _ _ refl
        is
  block_follows (gv bh incentive reward main sub) t fits is =
      untouched G codecs (block_decode codecs) prefix_iiss_bp_info block_made (block_by) t _ _ refl
        is
  block_follows (block bh none validator) t fits is = (is, λ n h. refl)
  block_follows (block bh (some g) []) t fits is = (is, λ n h. refl)
  block_follows (block bh (some g) (v ∷ validator)) t fits is =
      touched G codecs (block_decode codecs) prefix_iiss_bp_info block_made (block_by) t bh _ _ fits
        (ap checked (codecs.block.unmarshal-marshal _)) is
  block_follows (prep bh total []) t fits is = (is, λ n h. refl)
  block_follows (prep bh total (p ∷ preps)) t fits is =
      untouched G codecs (block_decode codecs) prefix_iiss_bp_info block_made (block_by) t _ _ refl
        is

  pub prep_follows : Follows G codecs (prep_decode codecs) prefix_iiss_prep prep_made (prep_by)
  unfolding apply write_iiss_header write_iiss_gv write_iiss_bp write_iiss_prep iiss_gv_set_bytes
      has_prefix internal_key
  prep_follows (header v bh rev) t fits is =
      untouched G codecs (prep_decode codecs) prefix_iiss_prep prep_made (prep_by) t _ _ refl is
  prep_follows (gv bh incentive reward main sub) t fits is =
      untouched G codecs (prep_decode codecs) prefix_iiss_prep prep_made (prep_by) t _ _ refl is
  prep_follows (block bh none validator) t fits is = (is, λ n h. refl)
  prep_follows (block bh (some g) []) t fits is = (is, λ n h. refl)
  prep_follows (block bh (some g) (v ∷ validator)) t fits is =
      untouched G codecs (prep_decode codecs) prefix_iiss_prep prep_made (prep_by) t _ _ refl is
  prep_follows (prep bh total []) t fits is = (is, λ n h. refl)
  prep_follows (prep bh total (p ∷ preps)) t fits is =
      touched G codecs (prep_decode codecs) prefix_iiss_prep prep_made (prep_by) t bh _ _ fits
        (ap (λ (x : PRepData × Bool). some x.0) (codecs.prep.unmarshal-marshal _)) is
