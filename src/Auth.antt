-- ===== src/Auth.antt =====
-- app/auth: accounts and their sessions.
pub mod Accounts
pub mod Service
