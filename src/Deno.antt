-- ===== src/Deno.antt =====
-- langshell-deno (crates/langshell-deno/src/lib.rs): the calls of tools from TypeScript and
-- what a run printed.
pub mod Errors
pub mod Engine
pub mod Ops
pub mod Scripts
pub mod Session
pub mod Streams
pub mod Validate
pub mod Worker
mod Tests
