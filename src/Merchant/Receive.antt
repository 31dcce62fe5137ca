-- ===== src/Merchant/Receive.antt =====
-- `Merchant::receive_payment_registration` of core/merchant.rs.
use veiled.Prelude.{
  ◌≡◌, ◌≢◌, sym, ap, ◌∙◌, ℕ, Bool, true, false, not, List, some, none, Bytes, list_eq, nat_eq,
  ◌===◌, if◌then◌else◌, Outcome, ok, guard, ◌>>=◌, ◌>>◌, on_ok, guard_inverts, bind_inverts,
  guard_passes, bind-ok, on_ok_inverts, on_ok_fails, on_ok_passes,
}
use veiled.Prelude.Map
use veiled.Prelude.Map.{get-insert, contains_key_false}
use veiled.Crypto.{Crypto}
use veiled.Types.{Commitment}
use veiled.Proof.{PaymentIdentityRegistration}
use veiled.Merchant.{Merchant}
use veiled.Crs.{Crs}
use veiled.PaymentIdentity.Verify.{verify_payment_identity_registration}

pub data ReceiveError : Type 0 where
  pseudonym_registered proof_invalid : ReceiveError

-- A merchant with one more registered identity.
unfoldable pub add_identity : Merchant → PaymentIdentityRegistration → Merchant
add_identity m registration = record m {
  registered_identities = Map.insert m.registered_identities registration.pseudonym registration;
}

module _ ⦃c : Crypto⦄ (dim : ℕ) where
  unfoldable pub receive_checks :
      Merchant
      → Crs
      → List Commitment
      → PaymentIdentityRegistration
      → Outcome ReceiveError (Unit {0})
  receive_checks m crs anonymity_set registration = do
    guard (not (Map.contains_key m.registered_identities registration.pseudonym))
        pseudonym_registered
    valid ← verify_payment_identity_registration dim crs anonymity_set registration
    guard valid proof_invalid
    ok tt

  unfoldable pub receive_payment_registration :
      Merchant
      → Crs
      → List Commitment
      → PaymentIdentityRegistration
      → Merchant × Outcome ReceiveError Bytes
  receive_payment_registration m crs anonymity_set registration =
      on_ok m (receive_checks m crs anonymity_set registration)
        (λ _. (add_identity m registration, registration.pseudonym))

  -- If a registration is accepted, its pseudonym is returned and was new and its proof verifies;
  -- afterwards it is found under its pseudonym, and what is found under another is unchanged.
  pub receive-ok :
      (m : Merchant) (crs : Crs) (anonymity_set : List Commitment)
      (reg : PaymentIdentityRegistration) (q : Bytes)
      → (receive_payment_registration m crs anonymity_set reg).1 ≡ ok q
      → (q ≡ reg.pseudonym)
        × ((Map.get m.registered_identities reg.pseudonym ≡ none)
            × ((◌≡◌ {A = Outcome ReceiveError Bool}
                  (verify_payment_identity_registration dim crs anonymity_set reg)
                  (ok true))
                × ((p : Bytes)
                    → Map.get
                        (receive_payment_registration m crs anonymity_set
                          reg).0.registered_identities
                        p
                      ≡ (if reg.pseudonym === p
                          then some reg
                          else Map.get m.registered_identities p))))
  unfolding receive_payment_registration receive_checks add_identity
  receive-ok m crs set reg q e =
      let (_, (passed, (next, is_q))) =
        on_ok_inverts m (receive_checks m crs set reg) (λ _. (add_identity m reg, reg.pseudonym)) q
          e in
      let (new, e1) =
        guard_inverts (not (Map.contains_key m.registered_identities reg.pseudonym)) _ _ passed in
      let (valid, (verified, e2)) =
        bind_inverts (verify_payment_identity_registration dim crs set reg) _ e1 in
      let (is_valid, _) = guard_inverts valid _ _ e2 in
      (
        sym is_q,
        (
          contains_key_false m.registered_identities reg.pseudonym new,
          (
            verified ∙ ap ok is_valid,
            λ p.
                ap (λ t. Map.get t.registered_identities p) next
                ∙ get-insert m.registered_identities reg.pseudonym p reg,
          ),
        ),
      )

  pub receive-fails :
      (m : Merchant) (crs : Crs) (anonymity_set : List Commitment)
      (reg : PaymentIdentityRegistration)
      → ((q : Bytes) → (receive_payment_registration m crs anonymity_set reg).1 ≢ ok q)
      → (receive_payment_registration m crs anonymity_set reg).0 ≡ m
  unfolding receive_payment_registration
  receive-fails m crs set reg e = on_ok_fails m _ _ e

  pub receive-accepts :
      (m : Merchant) (crs : Crs) (anonymity_set : List Commitment)
      (reg : PaymentIdentityRegistration)
      → Map.get m.registered_identities reg.pseudonym ≡ none
      → ◌≡◌ {A = Outcome ReceiveError Bool}
          (verify_payment_identity_registration dim crs anonymity_set reg)
          (ok true)
      → receive_payment_registration m crs anonymity_set reg
        ≡ (add_identity m reg, ok reg.pseudonym)
  unfolding receive_payment_registration receive_checks
  receive-accepts m crs set reg new verified = on_ok_passes m _ (
      guard_passes pseudonym_registered _
        (ap (λ o. not (elim o [ none ↦ false | some v ↦ true ])) new)
      ∙ bind-ok _ verified)
