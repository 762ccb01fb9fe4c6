-- ===== src/Snapshot.antt =====
-- snapshot.go: loading an IOSWSNAP file into the store.
mod Read
mod Load
unfoldable pub use Read.*
unfoldable pub use Load.*
pub mod Format
pub mod RoundTrip
pub mod Safety
pub mod Header
pub mod Steps
pub mod Ends
pub mod Halts
