-- ===== src/Mpt.antt =====
-- mpt.go: the nodes of the storage trie, their protobuf form, and the walk from a root to a leaf.
mod Node
mod Decode
mod Encode
mod Walk
pub mod Fields
pub mod RoundTrip
pub mod Ends
pub mod Leads
pub mod Halts
unfoldable pub use Node.*
unfoldable pub use Decode.*
unfoldable pub use Encode.*
unfoldable pub use Walk.*
