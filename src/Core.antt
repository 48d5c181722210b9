-- ===== src/Core.antt =====
-- langshell-core (crates/langshell-core/src/lib.rs).
mod Enums
mod Json
mod Types
pub mod Session
pub mod Truncate
pub mod Digest
pub mod Registry
mod Tests
unfoldable pub use Enums.*
unfoldable pub use Json.*
unfoldable pub use Types.*
