-- ===== src/Agent.antt =====
-- src/energy_agent/agent: the workflow of a diagnosis.
pub mod Workflow
pub mod Routes
