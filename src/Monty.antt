-- ===== src/Monty.antt =====
-- langshell-monty (crates/langshell-monty/src/lib.rs): the Python runtime.
pub mod Objects
pub mod Convert
pub mod Errors
pub mod Limits
pub mod Calls
pub mod Snippet
pub mod Validate
pub mod Session
pub mod Runtime
pub mod Instance
mod Tests
