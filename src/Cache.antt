-- ===== src/Cache.antt =====
-- app/cache: the retention policy, the in-memory cache tiers, and the coordinator of the two tiers.
pub mod Models
pub mod Policy
pub mod Stores
pub mod Coordinator
pub mod Results
