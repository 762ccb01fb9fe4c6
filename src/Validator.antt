-- ===== src/Validator.antt =====
-- validator.go: the four levels of validation of a task.
mod Defs
pub mod Signature
unfoldable pub use Defs.*
