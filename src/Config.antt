-- ===== src/Config.antt =====
-- service.go and status.go: the two readers of config.env, the service that is installed, and the
-- report of the agent's status.
mod Service
mod Status
pub mod Assigned
pub mod Lines
unfoldable pub use Service.*
unfoldable pub use Status.*
