-- ===== src/Context/Candidates.antt =====
-- P-Rep candidates: PRepCandidateData and PRepCandidate of core/db_management.go, IISSTX of
-- core/db_iissdata.go and UpdatePRepCandidate of core/context.go. The candidate map and its
-- bucket of the management DB are keyed by the address.
pub mod Life
use rewardcalculator.Base.{
  ℕ, Bool, Option, none, some, List, [], ◌∷◌, if◌then◌else◌, ◌==◌, nat_eq, lookup, insert,
}
use rewardcalculator.Account.Types.{DelegateData}
use rewardcalculator.Db.Engine.{Engine}

-- `end` is 0 while the P-Rep did not unregister.
pub record PRepCandidate : Type 0 where
  pub start : ℕ
  pub end : ℕ

-- The kinds of an IISS transaction, a delegation with its decoded data.
pub data TxDataType : Type 0 where
  delegate : List DelegateData → TxDataType
  prep_reg : TxDataType
  prep_un_reg : TxDataType
  unknown : ℕ → TxDataType

pub record IissTx : Type 0 where
  pub address : ℕ
  pub block_height : ℕ
  pub data_type : TxDataType

module _ (G : Engine ℕ PRepCandidate) where
  pub record Candidates : Type 0 where
    pub memory : List (ℕ × PRepCandidate)
    pub db : G.Table

  -- Writes to the memory and to the management DB.
  unfoldable pub write : ℕ → PRepCandidate → Candidates → Candidates
  write address p s = record { memory = insert address p s.memory; db = G.set s.db address p }

  abbrev pub register : ℕ → ℕ → Option PRepCandidate → Candidates → Candidates
  register address block_height none s = write address (record { start = block_height; end = 0 }) s
  register address block_height (some p) s = s

  abbrev pub unregister : ℕ → ℕ → Option PRepCandidate → Candidates → Candidates
  unregister address block_height none s = s
  unregister address block_height (some p) s =
      if p.end == 0 then write address (record p { end = block_height }) s else s

  unfoldable pub update : ℕ → ℕ → TxDataType → Candidates → Candidates
  unfolding write
  update address block_height (delegate l) s = s
  update address block_height prep_reg s = register address block_height (lookup address s.memory) s
  update address block_height prep_un_reg s =
      unregister address block_height (lookup address s.memory) s
  update address block_height (unknown n) s = s

  unfoldable pub update_prep_candidate : List IissTx → Candidates → Candidates
  unfolding update
  update_prep_candidate [] s = s
  update_prep_candidate (tx ∷ rest) s =
      update_prep_candidate rest (update tx.address tx.block_height tx.data_type s)
