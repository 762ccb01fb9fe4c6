-- ===== src/Upgrade.antt =====
-- upgrade.go: the versions, and the notice of a newer release.
mod Defs
pub mod Newer
unfoldable pub use Defs.*
