-- ===== src/Examples.antt =====
-- Runs of the theorems at concrete inputs, over the small instance of Crypto/Toy.antt, and tests of
-- the definitions.
pub mod Data
mod Flows
mod Clients
pub mod Trees
pub mod Registration
mod Verifying
mod Formats
pub mod Serving
pub mod Commands
mod Daemon
pub mod Wallets
mod Funding
mod Sessions
mod Tables
