-- ===== src/Llm.antt =====
-- llm.go: the proxy that serves chats by the language models that the agent has keys for.
mod Models
mod Calls
mod Chat
pub mod Listed
unfoldable pub use Models.*
unfoldable pub use Calls.*
unfoldable pub use Chat.*
