-- ===== src/Claim.antt =====
-- Claims of I-Score: core/db_claim.go, core/msg_claim.go and the claim part of
-- core/msg_rollback.go.
pub mod Types
mod Tests
mod Scenarios
pub mod PreCommit
pub mod Request
pub mod Backup
pub mod Block
pub mod Rollback
pub mod Protocol
pub mod Safety
pub mod Again
