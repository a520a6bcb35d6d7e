-- ===== src/Users.antt =====
-- src/energy_agent/users: the accounts, their refresh sessions, and the services over them.
pub mod Models
pub mod Repository
pub mod Sessions
pub mod Tokens
pub mod Auth
pub mod Refresh
pub mod Admin
pub mod Calls
pub mod Steps
pub mod Effects
pub mod Invariant
pub mod Revocation
pub mod Reuse
pub mod Lockout
