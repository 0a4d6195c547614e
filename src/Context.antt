-- ===== src/Context.antt =====
-- The context of the calculator: core/context.go and core/db_management.go.
pub mod Load
pub mod Info
mod Tests
pub mod Accounts
pub mod Periods
pub mod Governance
pub mod Candidates
