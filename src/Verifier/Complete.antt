-- ===== src/Verifier/Complete.antt =====
-- A registration that core/beneficiary.rs makes, at a merchant that keeps the state of core/verifier.rs.
use veiled.Prelude.{
  ℕ, ◌-◌, ◌^◌, ◌≤◌, ◌≡◌, sym, ap, ◌∙◌, subst, true, false, List, length, some, get_elem?, Bytes,
  Outcome, ok, Bool,
}
use veiled.Crypto.{Crypto}
use veiled.Types.{Commitment}
use veiled.Merchant.{Merchant}
use veiled.Crs.{Crs, num_merchants}
use veiled.Credential.{create}
use veiled.Nullifier.{derive_public_nullifier}
use veiled.Request.{derive_payment_request_pseudonym}
use veiled.Proof.{PaymentIdentityRegistration}
use veiled.PaymentIdentity.Prove.{Nonces}
use veiled.PaymentIdentity.Verify.{verify_payment_identity_registration}
use veiled.PaymentIdentity.Decoded.{AllPoints}
use veiled.Beneficiary.{Beneficiary, register, create_payment_registration}
use veiled.Beneficiary.Register.{create_payment_registration-verified}
use veiled.Verifier.{
  VerifierState, VerificationError, get_cached_set, has_nullifier, has_pseudonym,
  verify_and_register,
}
use veiled.Verifier.Register.{verify_and_register-accepts}

module _ ⦃c : Crypto⦄ where
  -- A beneficiary with a created credential that registers a set of 2^M points with its commitment in
  -- it makes a registration for every merchant of the CRS and all nonces. A verifier of this merchant
  -- that has cached the set, and that has registered neither the public nullifier nor the pseudonym of
  -- the credential for the name of the merchant, accepts it and returns both and the name of the
  -- beneficiary.
  pub verify_and_register-create_payment_registration {κ} :
      {E : Type κ} (dim : ℕ) (crs : Crs) (b : Beneficiary) (set_id : Bytes) (set : List Commitment)
      (merchant_id : ℕ) (nonces : Nonces) (m : Merchant) (state : VerifierState)
      → length crs.generators ≡ num_merchants crs
      → create {E = E} crs b.credential.sk b.credential.r b.credential.k b.credential.friendly_name
        ≡ ok b.credential
      → length set ≡ 2 ^ dim
      → AllPoints set
      → (register b set_id set).1 ≡ ok tt
      → 1 ≤ merchant_id
      → merchant_id ≤ num_merchants crs
      → get_elem? crs.merchants (merchant_id - 1) ≡ some m
      → state.user_index ≡ merchant_id
      → get_cached_set state set_id ≡ some set
      → has_nullifier state (derive_public_nullifier b.credential.sk m.name crs.g) ≡ false
      → has_pseudonym state (derive_payment_request_pseudonym b.credential.r m.name crs.g) ≡ false
      → (reg : PaymentIdentityRegistration) × (((create_payment_registration dim
              (register b set_id set).0
              crs
              merchant_id
              nonces).1
            ≡ ok reg)
          × ((verify_and_register dim state crs reg.pseudonym reg.public_nullifier reg.proof set_id
                reg.friendly_name).1
              ≡ ok (record {
                pseudonym = derive_payment_request_pseudonym b.credential.r m.name crs.g;
                public_nullifier = derive_public_nullifier b.credential.sk m.name crs.g;
                friendly_name = b.credential.friendly_name.text;
              })))
  unfolding verify_payment_identity_registration
  verify_and_register-create_payment_registration {E = E} dim crs b id set l nonces m state ge
        created set_len points registered l1 l2 at user cached unused free =
      let (reg, (made, (ps, (nul, ((ids, index), (named, (name, verified))))))) =
        create_payment_registration-verified {E = E} {F = VerificationError} dim crs b id set l
          nonces m ge created set_len points registered l1 l2 at in
      let valid =
        ap
          (λ i. verify_payment_identity_registration dim crs set (record reg { service_index = i }))
          (user ∙ sym index)
        ∙ verified in
      let valid_here =
        subst
          (λ i.
            ◌≡◌ {A = Outcome VerificationError Bool}
              (verify_payment_identity_registration dim crs set
                (record reg { service_index = state.user_index; set_id = i }))
              (ok true))
          ids valid in
      (
        reg,
        (
          made,
          verify_and_register-accepts dim state crs reg.pseudonym reg.public_nullifier reg.proof id
                reg.friendly_name
                (
                  set,
                  (
                    cached,
                    (
                      valid_here,
                      (
                        named,
                        (ap (has_nullifier state) nul ∙ unused, ap (has_pseudonym state) ps ∙ free),
                      ),
                    ),
                  ),
                )
              ∙ λ i.
                  ok
                    (record { pseudonym = ps i; public_nullifier = nul i; friendly_name = name i }),
        ),
      )
