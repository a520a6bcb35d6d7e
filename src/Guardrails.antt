-- ===== src/Guardrails.antt =====
-- src/energy_agent/guardrails, and the rule checker of agent/nodes/diagnosis.py that applies it.
pub mod Decisions
pub mod Checks
pub mod Service
pub mod Supported
pub mod Sources
pub mod Planning
pub mod Safety
pub mod RuleChecker
