-- ===== src/Verifier.antt =====
-- core/verifier.rs: `VerifierState`, the record that a merchant keeps of the identities registered
-- with it, and `verify_and_register`, steps 4.1 to 4.8 of the protocol. The state is passed along: a
-- method returns the next state with its result.
pub mod Register
pub mod Complete
pub mod Consistent
pub mod Sybil
use veiled.Prelude.{
  ℕ, Bool, List, [], Option, Bytes, length, contains, list_eq, nat_eq, Outcome, ok, ok_or, guard,
  not, ◌>>=◌, ◌>>◌, on_ok,
}
use veiled.Prelude.Map
use veiled.Prelude.Map.{Map}
use veiled.Prelude.Set
use veiled.Crypto.{Crypto}
use veiled.Types.{Commitment}
use veiled.Proof.{PaymentIdentityRegistrationProof}
use veiled.Crs.{Crs}
use veiled.PaymentIdentity.Verify.{
  verify_payment_identity_registration_proof, verify_name_revelation,
}

pub data VerificationError : Type 0 where
  set_not_found : Bytes → VerificationError
  proof_invalid nullifier_already_used pseudonym_already_used name_mismatch : VerificationError

pub record RegistrationResult : Type 0 where
  pub pseudonym : Bytes
  pub public_nullifier : Bytes
  pub friendly_name : Bytes

pub record VerifierState : Type 0 where
  pub user_index : ℕ
  pub set_cache : Map Bytes (List Commitment)
  pub registered_nullifiers : List Bytes
  pub registered_pseudonyms : List Bytes
  pub registrations : Map Bytes RegistrationResult

unfoldable pub new : ℕ → VerifierState
new user_index = record {
  user_index = user_index;
  set_cache = [];
  registered_nullifiers = [];
  registered_pseudonyms = [];
  registrations = [];
}

unfoldable pub cache_set : VerifierState → Bytes → List Commitment → VerifierState
cache_set state set_id commitments = record state {
  set_cache = Map.insert state.set_cache set_id commitments;
}

unfoldable pub get_cached_set : VerifierState → Bytes → Option (List Commitment)
get_cached_set state set_id = Map.get state.set_cache set_id

unfoldable pub has_nullifier : VerifierState → Bytes → Bool
has_nullifier state public_nullifier = contains state.registered_nullifiers public_nullifier

unfoldable pub has_pseudonym : VerifierState → Bytes → Bool
has_pseudonym state pseudonym = contains state.registered_pseudonyms pseudonym

unfoldable pub registered_count : VerifierState → ℕ
registered_count state = length state.registered_pseudonyms

unfoldable pub lookup_by_pseudonym : VerifierState → Bytes → Option RegistrationResult
lookup_by_pseudonym state pseudonym = Map.get state.registrations pseudonym

unfoldable pub check_freshness :
    VerifierState → Bytes → Bytes → Outcome VerificationError (Unit {0})
check_freshness state pseudonym public_nullifier = do
  guard (not (contains state.registered_nullifiers public_nullifier)) nullifier_already_used
  guard (not (contains state.registered_pseudonyms pseudonym)) pseudonym_already_used
  ok tt

-- 4.8: store (ϕ, nul_l) and the entry of the table.
unfoldable pub store : VerifierState → RegistrationResult → VerifierState
store state result = record state {
  registered_nullifiers = Set.insert state.registered_nullifiers result.public_nullifier;
  registered_pseudonyms = Set.insert state.registered_pseudonyms result.pseudonym;
  registrations = Map.insert state.registrations result.pseudonym result;
}

module _ ⦃c : Crypto⦄ (dim : ℕ) where
  -- 4.1 to 4.7, in the order of the code.
  unfoldable pub checks :
      VerifierState
      → Crs
      → Bytes
      → Bytes
      → PaymentIdentityRegistrationProof
      → Bytes
      → Bytes
      → Outcome VerificationError (Unit {0})
  checks state crs pseudonym public_nullifier proof set_id friendly_name = do
    anonymity_set ← ok_or (Map.get state.set_cache set_id) (set_not_found set_id)
    valid ←
        verify_payment_identity_registration_proof dim crs anonymity_set state.user_index set_id
          pseudonym public_nullifier proof
    guard valid proof_invalid
    guard (verify_name_revelation proof.name_scalar friendly_name) name_mismatch
    check_freshness state pseudonym public_nullifier

  unfoldable pub verify_and_register :
      VerifierState
      → Crs
      → Bytes
      → Bytes
      → PaymentIdentityRegistrationProof
      → Bytes
      → Bytes
      → VerifierState × Outcome VerificationError RegistrationResult
  verify_and_register state crs pseudonym public_nullifier proof set_id friendly_name =
      on_ok state (checks state crs pseudonym public_nullifier proof set_id friendly_name) (λ _.
        let result : RegistrationResult = record {
          pseudonym = pseudonym;
          public_nullifier = public_nullifier;
          friendly_name = friendly_name;
        } in
        (store state result, result))
