-- ===== src/Research.antt =====
-- app/services: durable research turns, and the worker that runs them detached.
pub mod Models
pub mod Thread
pub mod Channel
pub mod Execution
pub mod Manager
