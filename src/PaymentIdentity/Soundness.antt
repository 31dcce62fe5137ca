-- ===== src/PaymentIdentity/Soundness.antt =====
-- What the verifier of core/payment_identity.rs accepts.
use veiled.Prelude.{
  ℕ, ◌+◌, ◌^◌, ◌≤◌, ◌≡◌, refl, sym, arith, Bool, true, false, ◌&&◌, leb, ◌==◌, list_eq, nat_eq,
  list_beq_iff, List, Option, none, some, length, Bytes, Outcome, ok, ◌>>=◌, bind_inverts,
  ok_injective,
}
use veiled.Crypto.{Crypto, Point, ◌·◌}
use veiled.Types.{Commitment}
use veiled.Proof.{PaymentIdentityRegistrationProof}
use veiled.Crs.{Crs, num_merchants, h}
use veiled.PaymentIdentity.Verify.{
  or_false, require, check_value, membership_rhs, verify_payment_identity_registration_proof,
}

require_inverts :
    {E : Type 0} (b : Bool) (k : Outcome E Bool)
    → require b k ≡ ok true
    → (b ≡ true) × (k ≡ ok true)
unfolding require
require_inverts true k e = (refl, e)
require_inverts false k e = absurd (ground arith)

or_false_inverts :
    {E A : Type 0} (o : Option A) (k : A → Outcome E Bool)
    → or_false o k ≡ ok true
    → (a : A) × ((o ≡ some a) × (k a ≡ ok true))
unfolding or_false
or_false_inverts none k e = absurd (ground arith)
or_false_inverts (some a) k e = (a, (refl, e))

-- What holds after a later step of an accepting run holds.
after_require :
    {E P : Type 0} (b : Bool) (k : Outcome E Bool) → (k ≡ ok true → P) → require b k ≡ ok true → P
after_require b k f e = f (require_inverts b k e).1

after_or_false :
    {E A P : Type 0} (o : Option A) (k : A → Outcome E Bool)
    → ((a : A) → k a ≡ ok true → P)
    → or_false o k ≡ ok true
    → P
after_or_false o k f e = let (a, (_, next)) = or_false_inverts o k e in f a next

after_bind :
    {E A P : Type 0} (m : Outcome E A) (k : A → Outcome E Bool)
    → ((a : A) → k a ≡ ok true → P)
    → (m >>= k) ≡ ok true
    → P
after_bind m k f e = let (a, (_, next)) = bind_inverts m k e in f a next

and_true : (a b : Bool) → (a && b) ≡ true → (a ≡ true) × (b ≡ true)
and_true a b e = (ground (arith, e), ground (arith, e))

module _ ⦃c : Crypto⦄ where
  -- The nullifier of a checked value is that of the revealed scalar, and the Schnorr equation holds.
  check_value-inverts :
      (g : Point) (public_nullifier : Bytes) (proof : PaymentIdentityRegistrationProof)
      → check_value g public_nullifier proof ≡ true
      → c.point_to_bytes (g · c.bytes_to_scalar proof.nullifier_scalar) ≡ public_nullifier
  unfolding check_value
  check_value-inverts g pn proof e = (list_beq_iff _ _).0 (and_true _ _ e).0

  -- The last check of an accepted proof is that of the value.
  verify-value :
      {E : Type 0} (dim : ℕ) (crs : Crs) (anonymity_set : List Commitment) (service_index : ℕ)
      (set_id pseudonym public_nullifier : Bytes) (proof : PaymentIdentityRegistrationProof)
      → verify_payment_identity_registration_proof dim {E = E} crs anonymity_set service_index
          set_id pseudonym public_nullifier proof
        ≡ ok true
      → check_value crs.g public_nullifier proof ≡ true
  unfolding verify_payment_identity_registration_proof
  verify-value dim crs set l set_id pn nul proof = after_require _ _ (
      after_require _ _ (
        after_require _ _ (
          after_bind (h crs l) _ λ h_l. after_or_false _ _ λ a. after_or_false _ _ λ b.
            after_or_false _ _ λ c'. after_or_false _ _ λ d. after_or_false _ _ λ es.
              after_require _ _ (
                after_require _ _ (
                  after_bind (membership_rhs dim crs l proof.z_responses _ es) _
                    λ rhs. after_require _ _ (λ e. ok_injective e))))))

  -- If a proof is accepted, the set has 2^M commitments, the service is one of the CRS, there is a
  -- response for each merchant and one more, and the public nullifier is the encoding of s·g for the
  -- scalar s that the proof reveals.
  pub verify-nullifier :
      {E : Type 0} (dim : ℕ) (crs : Crs) (anonymity_set : List Commitment) (service_index : ℕ)
      (set_id pseudonym public_nullifier : Bytes) (proof : PaymentIdentityRegistrationProof)
      → verify_payment_identity_registration_proof dim {E = E} crs anonymity_set service_index
          set_id pseudonym public_nullifier proof
        ≡ ok true
      → (length anonymity_set ≡ 2 ^ dim)
        × (1 ≤ service_index)
        × (service_index ≤ num_merchants crs)
        × (length proof.z_responses ≡ num_merchants crs + 1)
        × (public_nullifier ≡ c.point_to_bytes (crs.g · c.bytes_to_scalar proof.nullifier_scalar))
  unfolding verify_payment_identity_registration_proof
  verify-nullifier dim crs set l set_id pn nul proof e =
      let (sized, e1) = require_inverts (length set == 2 ^ dim) _ e in
      let (ranged, e2) = require_inverts (leb 1 l && leb l (num_merchants crs)) _ e1 in
      let (counted, _) = require_inverts (length proof.z_responses == num_merchants crs + 1) _ e2 in
      (
        ground arith,
        ground arith,
        ground arith,
        ground arith,
        sym (
            check_value-inverts crs.g nul proof (verify-value dim crs set l set_id pn nul proof e)),
      )
