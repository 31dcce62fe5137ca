-- ===== src/Examples/Registration.antt =====
-- The proof of bob for the second merchant.
use veiled.Prelude.{
  list_eq, nat_eq, ◌≤◌, ◌+◌, ◌+◌, ◌≤◌, panic, none, length, ◌≡◌, decimal, refl, true, arith, Bytes,
  List, [], ◌∷◌, ok,
}
use veiled.Crypto.Toy.{two, toy}
use veiled.Types.FriendlyName.{to_scalar_bytes}
use veiled.Nullifier.{derive_public_nullifier, derive_all_nullifiers, derive_nullifier}
use veiled.Proof.{PaymentIdentityRegistration, PaymentIdentityRegistrationProof}
use veiled.Crs.{setup, generator_tag, num_merchants, names, add_values, commit_master_identity}
use veiled.PaymentIdentity.Prove.{ProveError, assemble, prove_payment_identity_registration}
use veiled.PaymentIdentity.Verify.{
  verify_name_revelation, verify_payment_identity_registration_proof,
}
use veiled.PaymentIdentity.Honest.{honest_proof, verify-honest, prove-verify}
use veiled.Crypto.{◌·◌}
use veiled.Request.{derive_payment_request_pseudonym}
use veiled.Merchant.Receive.{add_identity, receive_payment_registration}
use veiled.Beneficiary.{Beneficiary, register, create_payment_registration}
use veiled.Beneficiary.Register.{create_payment_registration-receive}
use veiled.Credential.Phi.{create-ok}
use veiled.PaymentIdentity.Decoded.{AllPoints}
use veiled.PaymentIdentity.Soundness.{verify-nullifier}
use veiled.PaymentIdentity.Panics.{prove-panics}
use veiled.Examples.Data.{cafe, crs, bob, anonymity_set, set_id, nonces}

abbrev bob_nullifiers : List Bytes
bob_nullifiers = derive_all_nullifiers bob.sk (names crs)

abbrev pub bob_public_nullifier : Bytes
bob_public_nullifier =
    derive_public_nullifier bob.sk (record { text = 99 ∷ 97 ∷ 102 ∷ 101 ∷ [] }) crs.g

abbrev pub name_scalar : Bytes
name_scalar = to_scalar_bytes bob.friendly_name

prove-verify_example :
    (proof : PaymentIdentityRegistrationProof) × ((prove_payment_identity_registration 1 crs
          anonymity_set 1 2 set_id bob.k bob_nullifiers
          (8 ∷ [])
          bob_public_nullifier
          name_scalar
          nonces
        ≡ ok proof)
      × (verify_payment_identity_registration_proof 1 {E = ProveError} crs anonymity_set 2 set_id
            (8 ∷ [])
            bob_public_nullifier
            proof
          ≡ ok true)
      × (proof.name_scalar ≡ name_scalar))
unfolding commit_master_identity num_merchants add_values setup derive_all_nullifiers
    derive_nullifier names derive_public_nullifier to_scalar_bytes generator_tag decimal
prove-verify_example =
    prove-verify 1 crs anonymity_set 1 2 set_id bob.k bob_nullifiers (8 ∷ []) bob_public_nullifier
      name_scalar nonces bob.phi refl refl ((two, refl), ((two, refl), tt)) (omega arith)
      (omega arith) refl refl refl

abbrev pub bob_member : Beneficiary
bob_member = record {
  credential = bob;
  set_id = none;
  index = none;
  anonymity_set = none;
  registrations = [];
}

pub both_points : AllPoints anonymity_set
unfolding setup add_values derive_all_nullifiers derive_nullifier names to_scalar_bytes
    generator_tag decimal
both_points = ((two, refl), ((two, refl), tt))

create_payment_registration-receive_example :
    (reg : PaymentIdentityRegistration) × (((create_payment_registration 1
          (register bob_member set_id anonymity_set).0
          crs
          2
          nonces).1
        ≡ ok reg)
      × ((reg.pseudonym ≡ derive_payment_request_pseudonym bob.r cafe.name crs.g)
          × ((verify_name_revelation reg.proof.name_scalar reg.friendly_name ≡ true)
              × (receive_payment_registration 1 cafe crs anonymity_set reg
                  ≡ (add_identity cafe reg, ok reg.pseudonym)))))
unfolding setup num_merchants register add_values derive_all_nullifiers derive_nullifier names
    to_scalar_bytes generator_tag decimal
create_payment_registration-receive_example =
    create_payment_registration-receive {E = ProveError} 1 crs bob_member set_id anonymity_set 2
      nonces cafe cafe refl (create-ok crs bob.sk bob.r bob.k bob.friendly_name refl) refl
      both_points refl (omega arith) (omega arith) refl refl

-- The proof of bob, and that it is accepted.
abbrev pub bob_proof : PaymentIdentityRegistrationProof
bob_proof =
    honest_proof 1 crs anonymity_set 1 2 set_id bob.k bob_nullifiers (8 ∷ []) bob_public_nullifier
      name_scalar nonces

pub bob_proof-verifies {κ} :
    {E : Type κ}
    → verify_payment_identity_registration_proof 1 {E = E} crs anonymity_set 2 set_id
        (8 ∷ [])
        bob_public_nullifier
        bob_proof
      ≡ ok true
unfolding num_merchants add_values setup derive_all_nullifiers derive_nullifier names
    derive_public_nullifier to_scalar_bytes generator_tag decimal
bob_proof-verifies =
    verify-honest 1 crs anonymity_set 1 2 set_id bob.k bob_nullifiers (8 ∷ []) bob_public_nullifier
      name_scalar nonces refl (omega arith) (omega arith) refl (omega arith) refl refl refl

pub bob_proof-names : bob_proof.name_scalar ≡ name_scalar
unfolding assemble
bob_proof-names = refl

verify-nullifier_example :
    (length anonymity_set ≡ 2)
    × (1 ≤ 2)
    × (2 ≤ num_merchants crs)
    × (length bob_proof.z_responses ≡ num_merchants crs + 1)
    × (bob_public_nullifier
        ≡ toy.point_to_bytes (crs.g · toy.bytes_to_scalar bob_proof.nullifier_scalar))
verify-nullifier_example =
    verify-nullifier {E = ProveError} 1 crs anonymity_set 2 set_id (8 ∷ []) bob_public_nullifier
      bob_proof bob_proof-verifies

-- A set in which the first commitment is no point.
abbrev bad_set : List Bytes
bad_set = (9 ∷ []) ∷ bob.phi ∷ []

prove-panics_example :
    prove_payment_identity_registration 1 crs bad_set 1 2 set_id bob.k bob_nullifiers
      (8 ∷ [])
      bob_public_nullifier
      name_scalar
      nonces
    ≡ panic
unfolding setup num_merchants derive_all_nullifiers names
prove-panics_example =
    prove-panics 1 crs bad_set 1 2 set_id bob.k bob_nullifiers (8 ∷ []) bob_public_nullifier
      name_scalar nonces 0 (9 ∷ []) refl refl (omega arith) (omega arith) (omega arith) refl refl
      refl
