-- ===== src/Grounding.antt =====
-- app/grounding: claims, the evidence that they cite, and what is delivered of them.
pub mod Contracts
pub mod Verifier
pub mod Policy
