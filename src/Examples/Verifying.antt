-- ===== src/Examples/Verifying.antt =====
-- The verifier of the second merchant registers bob.
use veiled.Prelude.{
  ◌≡◌, ◌≢◌, refl, sym, ap, ◌∙◌, true, some, none, Bytes, [], ◌∷◌, Outcome, ok, list_eq, nat_eq,
  list_beq_iff, ◌===◌, if◌then◌else◌, Bool,
}
use veiled.Prelude.Map
use veiled.Crypto.Toy.{toy}
use veiled.Types.FriendlyName.{to_scalar_bytes}
use veiled.Proof.{PaymentIdentityRegistration}
use veiled.Merchant.Receive.{
  ReceiveError, receive_payment_registration, receive-ok, receive-accepts,
}
use veiled.Verifier.{
  VerifierState, VerificationError, RegistrationResult, new, cache_set, get_cached_set,
  lookup_by_pseudonym, has_nullifier, has_pseudonym, store, verify_and_register,
}
use veiled.Verifier.Register.{
  Acceptable, verify_and_register-ok, verify_and_register-accepts, store-knows,
}
use veiled.Verifier.Complete.{verify_and_register-create_payment_registration}
use veiled.Verifier.Sybil.{
  Reachable, started, cached, attempted, one_pseudonym_per_nullifier, registered_once,
}
use veiled.Prelude.{arith, decimal}
use veiled.Nullifier.{derive_public_nullifier, derive_all_nullifiers, derive_nullifier}
use veiled.Crs.{setup, generator_tag, num_merchants, names, add_values}
use veiled.PaymentIdentity.Prove.{ProveError}
use veiled.Request.{derive_payment_request_pseudonym}
use veiled.Beneficiary.{register, create_payment_registration}
use veiled.Credential.Phi.{create-ok}
use veiled.PaymentIdentity.Verify.{verify_name_revelation, verify_payment_identity_registration}
use veiled.Examples.Data.{cafe, crs, bob, anonymity_set, set_id, nonces}
use veiled.Examples.Registration.{
  bob_member, both_points, bob_proof, bob_proof-verifies, bob_proof-names, bob_public_nullifier,
}

abbrev pseudonym : Bytes
pseudonym = 8 ∷ []

abbrev start : VerifierState
start = cache_set (new 2) set_id anonymity_set

abbrev entry : RegistrationResult
entry = record {
  pseudonym = pseudonym;
  public_nullifier = bob_public_nullifier;
  friendly_name = bob.friendly_name.text;
}

abbrev attempt : VerifierState × Outcome VerificationError RegistrationResult
attempt =
    verify_and_register 1 start crs pseudonym bob_public_nullifier bob_proof set_id
      bob.friendly_name.text

is_named : verify_name_revelation bob_proof.name_scalar bob.friendly_name.text ≡ true
unfolding verify_name_revelation to_scalar_bytes
is_named = (list_beq_iff _ _).1 (sym bob_proof-names)

start-Acceptable :
    Acceptable 1 start crs pseudonym bob_public_nullifier bob_proof set_id bob.friendly_name.text
unfolding cache_set new get_cached_set has_nullifier has_pseudonym
start-Acceptable = (anonymity_set, (refl, (bob_proof-verifies, (is_named, (refl, refl)))))

verify_and_register-create_payment_registration_example :
    (reg : PaymentIdentityRegistration) × (((create_payment_registration 1
          (register bob_member set_id anonymity_set).0
          crs
          2
          nonces).1
        ≡ ok reg)
      × ((verify_and_register 1 start crs reg.pseudonym reg.public_nullifier reg.proof set_id
            reg.friendly_name).1
          ≡ ok (record {
            pseudonym = derive_payment_request_pseudonym bob.r cafe.name crs.g;
            public_nullifier = derive_public_nullifier bob.sk cafe.name crs.g;
            friendly_name = bob.friendly_name.text;
          })))
unfolding setup num_merchants register add_values derive_all_nullifiers derive_nullifier names
    to_scalar_bytes generator_tag decimal cache_set new get_cached_set has_nullifier has_pseudonym
verify_and_register-create_payment_registration_example =
    verify_and_register-create_payment_registration {E = ProveError} 1 crs bob_member set_id
      anonymity_set 2 nonces cafe start refl
      (create-ok crs bob.sk bob.r bob.k bob.friendly_name refl) refl both_points refl (omega arith)
      (omega arith) refl refl refl refl refl

is_accepted : attempt.1 ≡ ok entry
is_accepted =
    verify_and_register-accepts 1 start crs pseudonym bob_public_nullifier bob_proof set_id
      bob.friendly_name.text start-Acceptable

verify_and_register-ok_example :
    Acceptable 1 start crs pseudonym bob_public_nullifier bob_proof set_id bob.friendly_name.text
    × ((attempt.0 ≡ store start entry)
        × ((entry.pseudonym ≡ pseudonym)
            × ((entry.public_nullifier ≡ bob_public_nullifier)
                × (entry.friendly_name ≡ bob.friendly_name.text))))
verify_and_register-ok_example =
    verify_and_register-ok 1 start crs pseudonym bob_public_nullifier bob_proof set_id
      bob.friendly_name.text entry is_accepted

is_listed : lookup_by_pseudonym attempt.0 pseudonym ≡ some entry
is_listed =
    ap (λ s. lookup_by_pseudonym s pseudonym)
      (verify_and_register-ok 1 start crs pseudonym bob_public_nullifier bob_proof set_id
        bob.friendly_name.text entry is_accepted).1.0
    ∙ (store-knows start entry bob_public_nullifier pseudonym).1.1

attempt-Reachable : Reachable 1 2 attempt.0
attempt-Reachable =
    attempted start crs pseudonym bob_public_nullifier bob_proof set_id bob.friendly_name.text
      (cached (new 2) set_id anonymity_set started)

one_pseudonym_per_nullifier_example : pseudonym ≡ pseudonym
one_pseudonym_per_nullifier_example =
    one_pseudonym_per_nullifier 1 2 attempt.0 pseudonym pseudonym entry entry attempt-Reachable
      is_listed is_listed refl

registered_once_example :
    ((verify_and_register 1 attempt.0 crs
        (6 ∷ [])
        entry.public_nullifier
        bob_proof
        set_id
        bob.friendly_name.text).1
      ≢ ok entry)
    × ((verify_and_register 1 attempt.0 crs
          (6 ∷ [])
          entry.public_nullifier
          bob_proof
          set_id
          bob.friendly_name.text).0
        ≡ attempt.0)
registered_once_example =
    registered_once 1 2 attempt.0 pseudonym entry crs (6 ∷ []) bob_proof set_id
      bob.friendly_name.text entry attempt-Reachable is_listed

abbrev registration : PaymentIdentityRegistration
registration = record {
  pseudonym = pseudonym;
  public_nullifier = bob_public_nullifier;
  set_id = set_id;
  service_index = 2;
  friendly_name = bob.friendly_name.text;
  proof = bob_proof;
}

is_verified :
    ◌≡◌ {A = Outcome ReceiveError Bool}
      (verify_payment_identity_registration 1 crs anonymity_set registration)
      (ok true)
unfolding verify_payment_identity_registration
is_verified = bob_proof-verifies

receive-ok_example :
    (pseudonym ≡ pseudonym)
    × ((Map.get cafe.registered_identities pseudonym ≡ none)
        × ((◌≡◌ {A = Outcome ReceiveError Bool}
              (verify_payment_identity_registration 1 crs anonymity_set registration)
              (ok true))
            × ((p : Bytes)
                → Map.get
                    (receive_payment_registration 1 cafe crs anonymity_set
                      registration).0.registered_identities
                    p
                  ≡ (if pseudonym === p then some registration else none))))
receive-ok_example =
    receive-ok 1 cafe crs anonymity_set registration pseudonym
      (ap (λ t. t.1) (receive-accepts 1 cafe crs anonymity_set registration refl is_verified))
