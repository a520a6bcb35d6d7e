-- ===== src/Indexing.antt =====
-- src/energy_agent/indexing: index jobs, their outbox, and the worker that consumes them.
pub mod Repository
pub mod Jobs
pub mod Calls
pub mod Outbox
pub mod Requests
pub mod Attempts
pub mod Tries
pub mod Silence
pub mod Consumer
pub mod Publisher
