-- ===== src/Verifier/Sybil.antt =====
-- The histories of a `VerifierState`, core/verifier.rs: cached sets and registration attempts.
use veiled.Prelude.{
  ok, ◌≡◌, ◌≢◌, sym, ap, ◌∙◌, ℕ, inl, inr, List, some, Bytes, list_eq, nat_eq, ok_cases, subst,
}
use veiled.Crypto.{Crypto}
use veiled.Types.{Commitment}
use veiled.Proof.{PaymentIdentityRegistrationProof}
use veiled.Crs.{Crs}
use veiled.Verifier.{
  RegistrationResult, VerifierState, new, cache_set, has_nullifier, has_pseudonym,
  lookup_by_pseudonym, verify_and_register,
}
use veiled.Verifier.Register.{verify_and_register-ok, verify_and_register-fails}
use veiled.Verifier.Consistent.{
  IsConsistent, true≢false, new-IsConsistent, cache_set-IsConsistent, store-IsConsistent,
}

module _ ⦃c : Crypto⦄ (dim : ℕ) where
  -- Every attempt, with any arguments and outcome, keeps the state consistent.
  pub verify_and_register-IsConsistent :
      (state : VerifierState) (crs : Crs) (pseudonym public_nullifier : Bytes)
      (proof : PaymentIdentityRegistrationProof) (set_id friendly_name : Bytes)
      → IsConsistent state
      → IsConsistent
          (verify_and_register dim state crs pseudonym public_nullifier proof set_id
            friendly_name).0
  verify_and_register-IsConsistent state crs pn nul proof id name h =
      elim (ok_cases (verify_and_register dim state crs pn nul proof id name).1) [
        | inl (r, e) ↦
            let (accepted, (next, (is_pn, (is_nul, _)))) =
              verify_and_register-ok dim state crs pn nul proof id name r e in
            let (new_nul, new_pn) = accepted.1.1.1.1 in
            subst IsConsistent (sym next) (
              store-IsConsistent state r h (ap (has_nullifier state) is_nul ∙ new_nul)
                (ap (has_pseudonym state) is_pn ∙ new_pn))
        | inr fails ↦
            subst IsConsistent
              (sym (verify_and_register-fails dim state crs pn nul proof id name fails)) h
      ]

  -- The states of a verifier: new, then any sequence of cached sets and attempts.
  pub data Reachable (i : ℕ) : VerifierState → Type 0 where
    started : Reachable i (new i)
    cached :
        (state : VerifierState) (id : Bytes) (set : List Commitment)
        → Reachable i state
        → Reachable i (cache_set state id set)
    attempted :
        (state : VerifierState) (crs : Crs) (pseudonym public_nullifier : Bytes)
        (proof : PaymentIdentityRegistrationProof) (set_id friendly_name : Bytes)
        → Reachable i state
        → Reachable i
            (verify_and_register dim state crs pseudonym public_nullifier proof set_id
              friendly_name).0

  pub Reachable-IsConsistent :
      (i : ℕ) (state : VerifierState) → Reachable i state → IsConsistent state
  Reachable-IsConsistent i _ started = new-IsConsistent i
  Reachable-IsConsistent i _ (cached state id set r) =
      cache_set-IsConsistent state id set (Reachable-IsConsistent i state r)
  Reachable-IsConsistent i _ (attempted state crs pn nul proof id name r) =
      verify_and_register-IsConsistent state crs pn nul proof id name
        (Reachable-IsConsistent i state r)

  -- In a reachable state two pseudonyms with the same nullifier are the same pseudonym.
  pub one_pseudonym_per_nullifier :
      (i : ℕ) (state : VerifierState) (p q : Bytes) (r t : RegistrationResult)
      → Reachable i state
      → lookup_by_pseudonym state p ≡ some r
      → lookup_by_pseudonym state q ≡ some t
      → r.public_nullifier ≡ t.public_nullifier
      → p ≡ q
  one_pseudonym_per_nullifier i state p q r t reached ep eq e =
      (Reachable-IsConsistent i state reached).unique p q r t ep eq e

  -- In a reachable state an attempt with the nullifier of a registered identity never returns `Ok`,
  -- and leaves the state as it is.
  pub registered_once :
      (i : ℕ) (state : VerifierState) (p : Bytes) (r : RegistrationResult) (crs : Crs)
      (pseudonym : Bytes) (proof : PaymentIdentityRegistrationProof) (set_id friendly_name : Bytes)
      (t : RegistrationResult)
      → Reachable i state
      → lookup_by_pseudonym state p ≡ some r
      → ((verify_and_register dim state crs pseudonym r.public_nullifier proof set_id
            friendly_name).1
          ≢ ok t)
        × ((verify_and_register dim state crs pseudonym r.public_nullifier proof set_id
              friendly_name).0
            ≡ state)
  registered_once i state p r crs pn proof id name t reached e =
      (fails t, verify_and_register-fails dim state crs pn r.public_nullifier proof id name fails)
    where
      fails :
          (u : RegistrationResult)
          → (verify_and_register dim state crs pn r.public_nullifier proof id name).1 ≢ ok u
      fails u is_ok =
          let (accepted, _) =
            verify_and_register-ok dim state crs pn r.public_nullifier proof id name u is_ok in
          true≢false
            (sym ((Reachable-IsConsistent i state reached).listed p r e).1.0 ∙ accepted.1.1.1.1.0)
