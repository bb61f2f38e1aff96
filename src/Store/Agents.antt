-- ===== src/Store/Agents.antt =====
-- internal/store/agent.go: how Agents enrol, what they are known by, and what they acknowledge.
pub mod Capabilities
pub mod Tokens
pub mod Invalidate
pub mod Enrol
pub mod Identity
pub mod Enrolled
pub mod Replay
pub mod Known
pub mod Heartbeat
pub mod Heard
pub mod Desired
pub mod Rotate
pub mod Settles
pub mod Acknowledged
pub mod Bumped
pub mod Fixtures
mod Examples
mod BumpExamples
