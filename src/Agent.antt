-- ===== src/Agent.antt =====
-- app/agent: failure metadata, retries and the tool executor.
pub mod Failures
pub mod Retry
pub mod ToolExecutor
pub mod ToolRegistry
