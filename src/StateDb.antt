-- ===== src/StateDb.antt =====
-- statedb.go: the in-memory state on which the EVM runs a task.
mod State
mod Accounts
mod Storage
mod Access
mod Snapshots
mod Changes
mod Build
pub mod Revert
pub mod Slots
pub mod Balances
unfoldable pub use State.*
unfoldable pub use Accounts.*
unfoldable pub use Storage.*
unfoldable pub use Access.*
unfoldable pub use Snapshots.*
unfoldable pub use Changes.*
unfoldable pub use Build.*
