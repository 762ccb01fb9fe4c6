-- ===== src/Chain.antt =====
-- fund.go, claim.go and deploy.go: the commands that send transactions for the agent's wallet.
mod Api
mod Fund
mod Receipt
mod Claim
mod Deploy
pub mod Paid
pub mod Sent
pub mod Wait
pub mod Created
pub mod Once
pub use Api.*
unfoldable pub use Fund.*
unfoldable pub use Receipt.*
unfoldable pub use Claim.*
unfoldable pub use Deploy.*
