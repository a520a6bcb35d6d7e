-- ===== src/Tools.antt =====
-- src/energy_agent/tools: the tool calls of a diagnosis run.
pub mod Executor
