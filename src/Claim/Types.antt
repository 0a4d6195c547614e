-- ===== src/Claim/Types.antt =====
-- The data of core/db_claim.go. An address is the number of its 21 bytes and a hash that of its
-- 32 bytes; a hash in a message is a Go slice, `none` where it is nil. The keys are kept as the
-- fields that ID, GenPreCommitKey and BackupID put one after another, each at its fixed width.
use rewardcalculator.Base.{ℕ, ◌≡◌, ◌↔◌, Bool, true, Option, none, some, arith, ◌==◌, ◌&&◌, Eq}
use rewardcalculator.Base.Int.{ℤ, pos, is_zero}

pub record ClaimData : Type 0 where
  pub block_height : ℕ
  pub i_score : ℤ

pub record Claim : Type 0 where
  pub address : ℕ
  pub claim_data : ClaimData

pub record PreCommitData : Type 0 where
  pub confirmed : Bool
  pub tx_index : ℕ
  pub tx_hash : ℕ
  pub claim : Claim

pub record PreCommit : Type 0 where
  pub block_height : ℕ
  pub block_hash : ℕ
  pub body : PreCommitData
  pub open body use *

pub record PreCommitKey : Type 0 where
  pub height : ℕ
  pub hash : ℕ
  pub address : ℕ

pub record BackupKey : Type 0 where
  pub height : ℕ
  pub address : ℕ

unfoldable pub pre_commit_key_beq : PreCommitKey → PreCommitKey → Bool
pre_commit_key_beq a b = a.height == b.height && a.hash == b.hash && a.address == b.address

pub pre_commit_key_beq_iff : (a b : PreCommitKey) → (pre_commit_key_beq a b ≡ true) ↔ (a ≡ b)
unfolding pre_commit_key_beq
pre_commit_key_beq_iff a b = ground arith

instance abbrev pub pre_commit_key_eq : Eq PreCommitKey
pre_commit_key_eq = record { beq = pre_commit_key_beq; beq_iff = pre_commit_key_beq_iff }

unfoldable pub backup_key_beq : BackupKey → BackupKey → Bool
backup_key_beq a b = a.height == b.height && a.address == b.address

pub backup_key_beq_iff : (a b : BackupKey) → (backup_key_beq a b ≡ true) ↔ (a ≡ b)
unfolding backup_key_beq
backup_key_beq_iff a b = ground arith

instance abbrev pub backup_key_eq : Eq BackupKey
backup_key_eq = record { beq = backup_key_beq; beq_iff = backup_key_beq_iff }

-- `copy` of a slice from a message into a fresh array.
abbrev pub copied : Option ℕ → ℕ
copied none = 0
copied (some h) = h

abbrev pub nil_claim : ClaimData
nil_claim = record { block_height = 0; i_score = pos 0 }

-- What _rollbackClaimDB takes for the empty value.
abbrev pub is_nil_claim : ClaimData → Bool
is_nil_claim d = d.block_height == 0 && is_zero d.i_score
