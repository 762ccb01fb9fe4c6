-- ===== src/Account.antt =====
-- account.go: accounts as they are stored, and addresses in hexadecimal.
mod Decode
mod Address
pub mod Fields
pub mod RoundTrip
unfoldable pub use Decode.*
unfoldable pub use Address.*
