-- ===== src/Cases/Service.antt =====
-- src/energy_agent/cases/application.py: `CaseApplicationService`.
pub mod Requests
pub mod Indexing
pub mod Review
pub mod Revision
pub mod Lifecycle
pub mod Diagnosis
pub mod Calls
pub mod Steps
pub mod Outcomes
pub mod Rows
pub mod Effects
pub mod Paths
pub mod Additions
pub mod Drafts
pub mod Refinement
pub mod Conflicts
pub mod Timeline
