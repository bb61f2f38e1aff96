-- ===== src/Store/Operation.antt =====
-- The operations of a node: internal/store/operation.go.
pub mod Queue
pub mod Pending
pub mod Result
pub mod Report
pub mod Progress
pub mod Steps
pub mod Created
pub mod Delivered
pub mod BackupPath
mod Examples
