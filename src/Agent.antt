-- ===== src/Agent.antt =====
-- internal/agent: the local store of an Agent.
pub mod Sample
pub mod Conserves
pub mod Deltas
pub mod Kicks
pub mod Reached
pub mod AuthCache
mod Examples
