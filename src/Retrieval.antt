-- ===== src/Retrieval.antt =====
-- src/energy_agent/retrieval: the selection of the evidence that a diagnosis is given.
pub mod Candidates
pub mod Dedup
pub mod Counts
pub mod Selection
pub mod Diversity
