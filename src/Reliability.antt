-- ===== src/Reliability.antt =====
-- src/energy_agent/reliability: circuit breakers around the program's dependencies.
pub mod Breaker
pub mod Registry
