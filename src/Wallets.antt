-- ===== src/Wallets.antt =====
-- bin/veiled_wallet.rs: the wallet program of the web interface. Each command loads the state of a
-- wallet from its file, makes a BDK wallet from it, and saves what it changed.
pub mod Bdk
pub mod Io
pub mod Sync
pub mod Json
pub mod Handlers
pub mod Dispatch
pub mod Kept
pub mod History
pub mod Addresses
pub mod Scan
pub mod Steps
pub mod Create
