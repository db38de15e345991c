-- ===== src/Events.antt =====
-- app/events: run-scoped event envelopes and their transports.
pub mod Models
pub mod Store
pub mod Resilient
