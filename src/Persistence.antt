-- ===== src/Persistence.antt =====
-- src/energy_agent/persistence: the rows of the tables that the modelled services read and write.
pub mod Index
pub mod Cases
pub mod Database
