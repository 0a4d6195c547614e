-- ===== src/Calculate.antt =====
-- The calculation of I-Scores (core/msg_calculate.go).
pub mod Delegation
mod Tests
mod CopyTests
pub mod Total
pub mod Transactions
pub mod Produce
pub mod PReps
pub mod Database
pub mod Calculation
pub mod Whole
