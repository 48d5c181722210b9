-- ===== src/Cli.antt =====
-- langshell-cli (crates/langshell-cli/src/lib.rs): the commands, the daemon and the stored
-- sessions.
pub mod Params
pub mod Rpc
pub mod Store
pub mod Commands
pub mod Daemon
pub mod Main
mod Tests
