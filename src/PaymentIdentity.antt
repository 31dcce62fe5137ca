-- ===== src/PaymentIdentity.antt =====
-- The one-out-of-many proof of core/payment_identity.rs: the prover, the verifier and the algebra
-- that links them. `M`, the number of bits of an index, is the parameter `dim`; an array of M
-- values is a function of the index.
pub mod Poly
pub mod Prove
pub mod Verify
pub mod PolyLaws
pub mod BitChecks
pub mod Membership
pub mod Others
pub mod Opening
pub mod Decoded
pub mod Completeness
pub mod Honest
pub mod Soundness
pub mod Panics
pub mod Sized
