-- ===== src/Sessions.antt =====
-- Diagnosis sessions: src/energy_agent/agent/execution_service.py with the repositories that it uses.
pub mod State
pub mod Store
pub mod Requests
pub mod Memory
pub mod Create
pub mod Clarify
pub mod Run
pub mod Diagnose
pub mod RoundTrip
pub mod Answers
pub mod Prepare
pub mod Touches
pub mod Endings
pub mod Calls
pub mod Messages
pub mod Terminal
pub mod Steps
pub mod Interrupted
pub mod Created
pub mod Once
pub mod Incomplete
pub mod Storm
