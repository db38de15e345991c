-- ===== src/Persistence.antt =====
-- app/persistence: the conversation repository and what it stores.
pub mod Models
pub mod Artifacts
pub mod Memory
