-- ===== src/Store.antt =====
-- statestore.go: the persistent state, over BoltDB as a parameter.
mod Driver
mod Defs
mod Reads
mod Steps
pub mod Laws
pub mod Open
pub mod Memory
pub use Driver.*
unfoldable pub use Defs.*
unfoldable pub use Reads.*
