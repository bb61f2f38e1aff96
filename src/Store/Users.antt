-- ===== src/Store/Users.antt =====
-- internal/store/user.go: users, their assignments to nodes, and the credentials of these.
pub mod Credential
pub mod Assign
pub mod Remove
pub mod Update
pub mod Access
pub mod Barred
pub mod Granted
pub mod Updated
pub mod Calls
pub mod Reveal
pub mod Revealed
pub mod Reveals
pub mod Outlives
mod Examples
