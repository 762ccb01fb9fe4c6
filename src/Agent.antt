-- ===== src/Agent.antt =====
-- main.go, worker.go and client.go: the agent, which runs a worker for each coordinator.
mod Level
mod Batch
mod Tasks
mod Worker
mod Main
unfoldable pub use Level.*
unfoldable pub use Batch.*
unfoldable pub use Tasks.*
unfoldable pub use Worker.*
unfoldable pub use Main.*
mod Cases
pub mod Active
pub mod Register
pub mod Submit
pub mod Switch
pub mod Single
pub mod Dial
