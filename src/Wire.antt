-- ===== src/Wire.antt =====
-- google.golang.org/protobuf/encoding/protowire, which the agent calls to read and write protobuf
-- fields, as a parameter; and the loop over the fields of a message that the decoders of mpt.go
-- and account.go share.
mod Defs
mod Loop
mod Lemmas
mod Fields
pub mod Wide
unfoldable pub use Defs.*
unfoldable pub use Loop.*
pub use Fields.*
pub use Lemmas.*
