-- ===== src/Iiss/TestCodecs.antt =====
-- A codec for concrete values: the fields of a record one after the other.
use rewardcalculator.Base.{ℕ, ◌≡◌, refl, Bool, true, false, List, [], ◌∷◌, ◌==◌}
use rewardcalculator.Base.Int.{ℤ, pos, negsuc}
use rewardcalculator.Base.Bytes.{Bytes}
use rewardcalculator.Db.Codec.{Codec}
use rewardcalculator.Context.Info.{DbInfoData}
use rewardcalculator.Context.Governance.{PRepDelegationInfo}
use rewardcalculator.Context.Candidates.{PRepCandidate}
use rewardcalculator.Context.Load.{DbInfoDataV1, GvData, PRepData, new_db_info}
use rewardcalculator.Iiss.{IissHeader, IissGvData, IissBlockProduceInfoData, Codecs}

abbrev header_from : Bytes → IissHeader × Bool
header_from (a ∷ b ∷ c ∷ []) = (record { version = a; block_height = b; revision = c }, true)
header_from bs = (record { version = 0; block_height = 0; revision = 0 }, false)

abbrev pub header_codec : Codec IissHeader
header_codec = record {
  marshal = λ h. h.version ∷ h.block_height ∷ h.revision ∷ [];
  unmarshal = header_from;
  unmarshal-marshal = λ h. refl;
}

abbrev iiss_gv_from : Bytes → IissGvData × Bool
iiss_gv_from (a ∷ b ∷ c ∷ d ∷ []) =
    (record { incentive_rep = a; reward_rep = b; main_prep_count = c; sub_prep_count = d }, true)
iiss_gv_from bs =
    (record { incentive_rep = 0; reward_rep = 0; main_prep_count = 0; sub_prep_count = 0 }, false)

abbrev pub iiss_gv_codec : Codec IissGvData
iiss_gv_codec = record {
  marshal = λ d. d.incentive_rep ∷ d.reward_rep ∷ d.main_prep_count ∷ d.sub_prep_count ∷ [];
  unmarshal = iiss_gv_from;
  unmarshal-marshal = λ d. refl;
}

abbrev gv_from : Bytes → GvData × Bool
gv_from (a ∷ b ∷ c ∷ d ∷ []) = (
  record { calculated_incentive_rep = a; reward_rep = b; main_prep_count = c; sub_prep_count = d },
  true,
)
gv_from bs = (
  record { calculated_incentive_rep = 0; reward_rep = 0; main_prep_count = 0; sub_prep_count = 0 },
  false,
)

abbrev pub gv_codec : Codec GvData
gv_codec = record {
  marshal =
      λ d. d.calculated_incentive_rep ∷ d.reward_rep ∷ d.main_prep_count ∷ d.sub_prep_count ∷ [];
  unmarshal = gv_from;
  unmarshal-marshal = λ d. refl;
}

abbrev block_from : Bytes → IissBlockProduceInfoData × Bool
block_from [] = (record { generator = 0; validator = [] }, false)
block_from (g ∷ validator) = (record { generator = g; validator = validator }, true)

abbrev pub block_codec : Codec IissBlockProduceInfoData
block_codec = record {
  marshal = λ d. d.generator ∷ d.validator;
  unmarshal = block_from;
  unmarshal-marshal = λ d. refl;
}

abbrev candidate_from : Bytes → PRepCandidate × Bool
candidate_from (a ∷ b ∷ []) = (record { start = a; end = b }, true)
candidate_from bs = (record { start = 0; end = 0 }, false)

abbrev pub candidate_codec : Codec PRepCandidate
candidate_codec = record {
  marshal = λ p. p.start ∷ p.end ∷ [];
  unmarshal = candidate_from;
  unmarshal-marshal = λ p. refl;
}

abbrev number : Bool → ℕ
number true = 1
number false = 0

abbrev info_from : Bytes → DbInfoData × Bool
info_from (a ∷ b ∷ c ∷ d ∷ e ∷ f ∷ g ∷ h ∷ []) = (
  record {
    db_count = a;
    query_db_is_zero = b == 1;
    current = record { block_height = c; block_hash = d };
    calc_done = e;
    prev_calc_done = f;
    calculating = g;
    toggle_bh = h;
  },
  true,
)
info_from bs = (new_db_info, false)

abbrev both_flags : (b : Bool) → (number b == 1) ≡ b
both_flags true = refl
both_flags false = refl

abbrev pub info_codec : Codec DbInfoData
info_codec = record {
  marshal = λ d.
      d.db_count
      ∷ number d.query_db_is_zero
      ∷ d.current.block_height
      ∷ d.current.block_hash
      ∷ d.calc_done
      ∷ d.prev_calc_done
      ∷ d.calculating
      ∷ d.toggle_bh
      ∷ [];
  unmarshal = info_from;
  unmarshal-marshal =
      λ d i. (record d { query_db_is_zero = both_flags d.query_db_is_zero i }, true);
}

abbrev v1_from : Bytes → DbInfoDataV1 × Bool
v1_from (a ∷ b ∷ c ∷ []) =
    (record { db_count = a; block_height = b; query_db_is_zero = c == 1 }, true)
v1_from bs = (record { db_count = 0; block_height = 0; query_db_is_zero = false }, false)

abbrev pub v1_codec : Codec DbInfoDataV1
v1_codec = record {
  marshal = λ d. d.db_count ∷ d.block_height ∷ number d.query_db_is_zero ∷ [];
  unmarshal = v1_from;
  unmarshal-marshal =
      λ d i. (record d { query_db_is_zero = both_flags d.query_db_is_zero i }, true);
}

abbrev signed_from : ℕ → ℕ → ℤ
signed_from sign n = elim (sign == 1) [ true ↦ negsuc n | false ↦ pos n ]

abbrev of_signed : ℤ → Bytes → Bytes
of_signed (pos n) rest = 0 ∷ n ∷ rest
of_signed (negsuc n) rest = 1 ∷ n ∷ rest

abbrev infos_from : Bytes → List PRepDelegationInfo
infos_from (a ∷ s ∷ n ∷ rest) =
    record { address = a; delegated_amount = signed_from s n } ∷ infos_from rest
infos_from bs = []

abbrev of_infos : List PRepDelegationInfo → Bytes
of_infos [] = []
of_infos (i ∷ rest) = i.address ∷ of_signed i.delegated_amount (of_infos rest)

abbrev one :
    (a : ℕ) (amount : ℤ) (rest l : List PRepDelegationInfo)
    → infos_from (of_infos rest) ≡ l
    → infos_from (a ∷ of_signed amount (of_infos rest))
      ≡ record { address = a; delegated_amount = amount } ∷ l
one a (pos n) rest l h = λ i. record { address = a; delegated_amount = pos n } ∷ h i
one a (negsuc n) rest l h = λ i. record { address = a; delegated_amount = negsuc n } ∷ h i

abbrev infos_from-of_infos : (l : List PRepDelegationInfo) → infos_from (of_infos l) ≡ l
infos_from-of_infos [] = refl
infos_from-of_infos (i ∷ rest) =
    one i.address i.delegated_amount rest rest (infos_from-of_infos rest)

abbrev prep_from : Bytes → PRepData × Bool
prep_from (s ∷ n ∷ rest) =
    (record { total_delegation = signed_from s n; delegations = infos_from rest }, true)
prep_from bs = (record { total_delegation = pos 0; delegations = [] }, false)

abbrev prep_law :
    (total : ℤ) (l : List PRepDelegationInfo)
    → prep_from (of_signed total (of_infos l))
      ≡ (record { total_delegation = total; delegations = l }, true)
prep_law (pos n) l =
    λ i. (record { total_delegation = pos n; delegations = infos_from-of_infos l i }, true)
prep_law (negsuc n) l =
    λ i. (record { total_delegation = negsuc n; delegations = infos_from-of_infos l i }, true)

abbrev pub prep_codec : Codec PRepData
prep_codec = record {
  marshal = λ d. of_signed d.total_delegation (of_infos d.delegations);
  unmarshal = prep_from;
  unmarshal-marshal = λ d. prep_law d.total_delegation d.delegations;
}

abbrev pub codecs : Codecs
codecs = record {
  header = header_codec;
  gv = iiss_gv_codec;
  block = block_codec;
  prep = prep_codec;
}
