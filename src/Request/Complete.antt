-- ===== src/Request/Complete.antt =====
-- The Schnorr proof of a payment request of core/request.rs, made and verified.
use veiled.Prelude.{ℕ, ◌≡◌, refl, ap, ◌∙◌, true, some, Bytes}
use veiled.Crypto.{Crypto, Scalar, Point, ◌⊕◌, ◌⊗◌, ◌⊞◌, ◌·◌}
use veiled.Types.{ChildRandomness}
use veiled.Types.Name.{Name}
use veiled.Request.{
  derive_payment_request_secret_key, derive_payment_request_pseudonym, PaymentRequestProof,
  payment_request_challenge, prove_payment_request, verify_payment_request, create_payment_request,
}

module _ ⦃c : Crypto⦄ where
  -- A response that answers the challenge is accepted.
  verify-answer :
      (g : Point) (csk t : Scalar) (pseudonym : Bytes) (proof : PaymentRequestProof)
      → pseudonym ≡ c.point_to_bytes (g · csk)
      → proof.r ≡ c.point_to_bytes (g · t)
      → proof.s ≡ c.scalar_to_bytes (t ⊕ payment_request_challenge g pseudonym (g · t) ⊗ csk)
      → verify_payment_request g pseudonym proof ≡ true
  unfolding verify_payment_request
  verify-answer g csk t pn proof is_pn is_r is_s =
      let e = payment_request_challenge g pn (g · t) in
      let from_r : c.point_from_bytes proof.r ≡ some (g · t) =
        ap c.point_from_bytes is_r ∙ c.point_from_bytes-point_to_bytes (g · t) in
      let from_pn : c.point_from_bytes pn ≡ some (g · csk) =
        ap c.point_from_bytes is_pn ∙ c.point_from_bytes-point_to_bytes (g · csk) in
      rw (verify_payment_request, from_r, from_pn)
        ((c.point_eq_iff _ _).1 (
          ap (λ s. g · c.bytes_to_scalar s) is_s
          ∙ ap (λ s. g · s) (c.bytes_to_scalar-scalar_to_bytes (t ⊕ e ⊗ csk))
          ∙ c.smul-add g t (e ⊗ csk)
          ∙ ap (λ s. g · t ⊞ g · s) (c.mul_comm e csk)
          ∙ ap (λ p. g · t ⊞ p) (c.smul-mul g csk e)))

  -- A payment request that the owner of a pseudonym creates carries that pseudonym and an accepted
  -- proof, for every amount and nonce.
  pub verify-create_payment_request :
      (r : ChildRandomness) (name : Name) (g : Point) (amount : ℕ) (t : Scalar)
      → ((create_payment_request r name g amount t).pseudonym
          ≡ derive_payment_request_pseudonym r name g)
        × (verify_payment_request g
              (create_payment_request r name g amount t).pseudonym
              (create_payment_request r name g amount t).proof
            ≡ true)
  unfolding create_payment_request derive_payment_request_pseudonym prove_payment_request
  verify-create_payment_request r name g amount t = (
    refl,
    verify-answer g (c.bytes_to_scalar (derive_payment_request_secret_key r name)) t _
        (prove_payment_request r name g t) refl refl refl,
  )
