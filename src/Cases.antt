-- ===== src/Cases.antt =====
-- src/energy_agent/cases and persistence/repositories/cases.py: the life of a diagnosis case.
pub mod Repository
pub mod Transition
pub mod Idempotency
pub mod Reindex
pub mod Versions
pub mod Service
pub mod Handler
pub mod Handling
pub mod Batches
