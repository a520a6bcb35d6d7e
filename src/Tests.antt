-- ===== src/Tests.antt =====
-- The theorems at concrete inputs.
mod Tools
mod Indexing
mod Cases
mod Users
mod Agent
mod Service
mod Guardrails
mod Retrieval
mod Handler
mod Sessions
