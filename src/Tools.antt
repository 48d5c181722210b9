-- ===== src/Tools.antt =====
-- langshell-tools (crates/langshell-tools/src/lib.rs).
pub mod Schemas
pub mod Urls
pub mod Mounts
pub mod Files
pub mod Discovery
pub mod Builtin
mod Tests
