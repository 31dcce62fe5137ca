-- ===== src/Service.antt =====
-- registry/: the wallet, the store and the gRPC service of the registry operator.
pub mod Wallet
pub mod Funding
pub mod Store
pub mod Persist
pub mod Handlers
pub mod Padding
pub mod Bounds
pub mod History
pub mod Enrol
pub mod Finalize
