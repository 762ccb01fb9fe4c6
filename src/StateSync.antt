-- ===== src/StateSync.antt =====
-- statesync.go: the stream of diffs from the coordinator, applied to the state store. The sync loop
-- runs beside the worker, so it is a function of one step over the events that reach it.
mod Defs
mod Cases
pub mod Laws
pub mod Order
pub mod Ready
unfoldable pub use Defs.*
