-- ===== src/Commands.antt =====
-- bin/veiled_core.rs: the helper program of the web interface. It reads a command as JSON, runs one
-- operation of the core library and writes the result as JSON; the caller keeps the state.
pub mod Json
pub mod Handlers
pub mod Hexes
pub mod Registration
pub mod Payment
pub mod Credential
pub mod Dispatch
pub mod Daemon
