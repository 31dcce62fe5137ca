-- ===== src/Proof.antt =====
-- The messages of core/payment_identity.rs: the proof and the registration that carries it. Arrays
-- of points and scalars are lists of their encodings.
pub mod Codec
pub mod RoundTrip
use veiled.Prelude.{ℕ, List, Bytes}

pub record PaymentIdentityRegistrationProof : Type 0 where
  pub a : Bytes
  pub b : Bytes
  pub c : Bytes
  pub d : Bytes
  pub e_poly : List Bytes
  pub f : List Bytes
  pub z_a : Bytes
  pub z_c : Bytes
  pub z_responses : List Bytes
  pub schnorr_r : Bytes
  pub schnorr_s : Bytes
  pub nullifier_scalar : Bytes
  pub name_scalar : Bytes

pub record PaymentIdentityRegistration : Type 0 where
  pub pseudonym : Bytes
  pub public_nullifier : Bytes
  pub set_id : Bytes
  pub service_index : ℕ
  pub friendly_name : Bytes
  pub proof : PaymentIdentityRegistrationProof
