-- ===== src/Evm.antt =====
-- evm.go: one execution on the state of a task, over go-ethereum's interpreter as a parameter.
mod Defs
pub mod Transfer
unfoldable pub use Defs.*
