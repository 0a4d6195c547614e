-- ===== src/Account.antt =====
-- I-Score accounts (core/db_account.go).
pub mod Types
