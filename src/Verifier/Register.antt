-- ===== src/Verifier/Register.antt =====
-- What one call of `verify_and_register` does, on success and on failure.
use veiled.Prelude.{
  ◌≡◌, ◌≢◌, sym, ap, ◌∙◌, Bool, true, false, not, ◌||◌, arith, List, some, Bytes, contains, list_eq,
  nat_eq, ◌===◌, if◌then◌else◌, ℕ, Outcome, ok, ok_or, guard_inverts, bind_inverts, bind-ok,
  ok_or_inverts, on_ok_inverts, on_ok_fails, guard_passes, on_ok_passes,
}
use veiled.Prelude.Map
use veiled.Prelude.Map.{get-insert}
use veiled.Prelude.Set.{contains-insert}
use veiled.Crypto.{Crypto}
use veiled.Types.{Commitment}
use veiled.Proof.{PaymentIdentityRegistrationProof}
use veiled.Crs.{Crs}
use veiled.PaymentIdentity.Verify.{
  verify_payment_identity_registration_proof, verify_name_revelation,
}
use veiled.Verifier.{
  VerificationError, set_not_found, name_mismatch, nullifier_already_used, pseudonym_already_used,
  RegistrationResult, VerifierState, get_cached_set, has_nullifier, has_pseudonym,
  lookup_by_pseudonym, check_freshness, store, checks, verify_and_register,
}

is_false : (b : Bool) → not b ≡ true → b ≡ false
is_false b h = ground arith

check_freshness-inverts :
    (state : VerifierState) (pseudonym public_nullifier : Bytes)
    → check_freshness state pseudonym public_nullifier ≡ ok tt
    → (has_nullifier state public_nullifier ≡ false) × (has_pseudonym state pseudonym ≡ false)
unfolding check_freshness has_nullifier has_pseudonym
check_freshness-inverts state pn nul e =
    let (unused, rest) = guard_inverts (not (contains state.registered_nullifiers nul)) _ _ e in
    let (free, _) = guard_inverts (not (contains state.registered_pseudonyms pn)) _ _ rest in
    (is_false _ unused, is_false _ free)

module _ ⦃c : Crypto⦄ (dim : ℕ) where
  -- What must hold for a registration: the set is cached, the proof verifies against it for this
  -- user, the name is the one committed to, and nullifier and pseudonym are new.
  abbrev pub Acceptable :
      VerifierState
      → Crs
      → Bytes
      → Bytes
      → PaymentIdentityRegistrationProof
      → Bytes
      → Bytes
      → Type 0
  Acceptable state crs pseudonym public_nullifier proof set_id friendly_name =
      (set : List Commitment) × ((get_cached_set state set_id ≡ some set)
        × ((◌≡◌ {A = Outcome VerificationError Bool}
              (verify_payment_identity_registration_proof dim crs set state.user_index set_id
                pseudonym public_nullifier proof)
              (ok true))
            × ((verify_name_revelation proof.name_scalar friendly_name ≡ true)
                × ((has_nullifier state public_nullifier ≡ false)
                    × (has_pseudonym state pseudonym ≡ false)))))

  checks-inverts :
      (state : VerifierState) (crs : Crs) (pseudonym public_nullifier : Bytes)
      (proof : PaymentIdentityRegistrationProof) (set_id friendly_name : Bytes)
      → checks dim state crs pseudonym public_nullifier proof set_id friendly_name ≡ ok tt
      → Acceptable state crs pseudonym public_nullifier proof set_id friendly_name
  unfolding checks get_cached_set
  checks-inverts state crs pn nul proof id name e =
      let (set, (cached, e1)) = bind_inverts (ok_or (Map.get state.set_cache id) _) _ e in
      let (valid, (verified, e2)) =
        bind_inverts
          (verify_payment_identity_registration_proof dim crs set state.user_index id pn nul proof)
          _ e1 in
      let (is_valid, e3) = guard_inverts valid _ _ e2 in
      let (revealed, e4) = guard_inverts (verify_name_revelation proof.name_scalar name) _ _ e3 in
      (
        set,
        (
          ok_or_inverts _ _ cached,
          (verified ∙ ap ok is_valid, (revealed, check_freshness-inverts state pn nul e4)),
        ),
      )

  checks-pass :
      (state : VerifierState) (crs : Crs) (pseudonym public_nullifier : Bytes)
      (proof : PaymentIdentityRegistrationProof) (set_id friendly_name : Bytes)
      → Acceptable state crs pseudonym public_nullifier proof set_id friendly_name
      → checks dim state crs pseudonym public_nullifier proof set_id friendly_name ≡ ok tt
  unfolding checks get_cached_set check_freshness has_nullifier has_pseudonym
  checks-pass state crs pn nul proof id name (set, (cached, (verified, (named, (n1, n2))))) =
      bind-ok _ (ap (λ o. ok_or o (set_not_found id)) cached)
      ∙ bind-ok _ verified
      ∙ guard_passes name_mismatch _ named
      ∙ guard_passes nullifier_already_used _ (ap not n1)
      ∙ guard_passes pseudonym_already_used _ (ap not n2)

  -- A call that returns `Ok` was acceptable; it returns the pseudonym, the nullifier and the name of
  -- the call and stores them.
  pub verify_and_register-ok :
      (state : VerifierState) (crs : Crs) (pseudonym public_nullifier : Bytes)
      (proof : PaymentIdentityRegistrationProof) (set_id friendly_name : Bytes)
      (r : RegistrationResult)
      → (verify_and_register dim state crs pseudonym public_nullifier proof set_id friendly_name).1
        ≡ ok r
      → Acceptable state crs pseudonym public_nullifier proof set_id friendly_name
        × (((verify_and_register dim state crs pseudonym public_nullifier proof set_id
                friendly_name).0
              ≡ store state r)
            × ((r.pseudonym ≡ pseudonym)
                × ((r.public_nullifier ≡ public_nullifier) × (r.friendly_name ≡ friendly_name))))
  unfolding verify_and_register
  verify_and_register-ok state crs pn nul proof id name r e =
      let (_, (passed, (next, is_r))) = on_ok_inverts state _ _ r e in
      (
        checks-inverts state crs pn nul proof id name passed,
        (
          next ∙ ap (store state) is_r,
          (
            sym (ap (λ t. t.pseudonym) is_r),
            (sym (ap (λ t. t.public_nullifier) is_r), sym (ap (λ t. t.friendly_name) is_r)),
          ),
        ),
      )

  -- A call that does not return `Ok` leaves the state as it was.
  pub verify_and_register-fails :
      (state : VerifierState) (crs : Crs) (pseudonym public_nullifier : Bytes)
      (proof : PaymentIdentityRegistrationProof) (set_id friendly_name : Bytes)
      → ((r : RegistrationResult)
          → (verify_and_register dim state crs pseudonym public_nullifier proof set_id
              friendly_name).1
            ≢ ok r)
      → (verify_and_register dim state crs pseudonym public_nullifier proof set_id friendly_name).0
        ≡ state
  unfolding verify_and_register
  verify_and_register-fails state crs pn nul proof id name e = on_ok_fails state _ _ e

  -- An acceptable call is accepted.
  pub verify_and_register-accepts :
      (state : VerifierState) (crs : Crs) (pseudonym public_nullifier : Bytes)
      (proof : PaymentIdentityRegistrationProof) (set_id friendly_name : Bytes)
      → Acceptable state crs pseudonym public_nullifier proof set_id friendly_name
      → (verify_and_register dim state crs pseudonym public_nullifier proof set_id friendly_name).1
        ≡ ok (record {
          pseudonym = pseudonym;
          public_nullifier = public_nullifier;
          friendly_name = friendly_name;
        })
  unfolding verify_and_register
  verify_and_register-accepts state crs pn nul proof id name a =
      ap (λ t. t.1) (on_ok_passes state _ (checks-pass state crs pn nul proof id name a))

-- After a registration the state knows it, and what it knew before of others.
pub store-knows :
    (state : VerifierState) (r : RegistrationResult) (nullifier pseudonym : Bytes)
    → (has_nullifier (store state r) nullifier
        ≡ ((r.public_nullifier === nullifier) || has_nullifier state nullifier))
      × ((has_pseudonym (store state r) pseudonym
            ≡ ((r.pseudonym === pseudonym) || has_pseudonym state pseudonym))
          × (lookup_by_pseudonym (store state r) pseudonym ≡ (
              if r.pseudonym === pseudonym then some r else lookup_by_pseudonym state pseudonym)))
unfolding store has_nullifier has_pseudonym lookup_by_pseudonym
store-knows state r nul pn = (
  contains-insert state.registered_nullifiers r.public_nullifier nul,
  (
    contains-insert state.registered_pseudonyms r.pseudonym pn,
    get-insert state.registrations r.pseudonym pn r,
  ),
)
