-- ===== src/Tests.antt =====
-- Runs of the models on concrete inputs, and the theorems applied to them.
mod Conversations
mod Transports
mod Tools
mod Caching
mod Turns
mod Claims
mod Logins
mod Payloads
mod Registry
