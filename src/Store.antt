-- ===== src/Store.antt =====
-- The methods of internal/store over the tables of `Schema`, one module for each file or part of it.
mod Fixtures
pub mod Texts
pub mod Operation
pub mod Snapshot
pub mod Kick
pub mod Online
pub mod Frame
pub mod Traffic
pub mod Calibration
pub mod Alert
pub mod Delivery
pub mod Reconcile
pub mod Secret
pub mod Agents
pub mod Users
