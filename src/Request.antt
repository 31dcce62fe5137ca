-- ===== src/Request.antt =====
-- core/request.rs: the pseudonym of a beneficiary at a merchant, and the Schnorr proof that a payment
-- request carries for it.
pub mod Address
pub mod Complete
use veiled.Prelude.{ℕ, Bool, false, none, some, ◌++◌, Bytes, codes}
use veiled.Crypto.{Crypto, Scalar, Point, ◌⊕◌, ◌⊗◌, ◌⊞◌, ◌·◌}
use veiled.Types.{ChildRandomness}
use veiled.Types.Name.{Name}

pub record PaymentRequestProof : Type 0 where
  pub r : Bytes
  pub s : Bytes

pub record PaymentRequest : Type 0 where
  pub amount : ℕ
  pub pseudonym : Bytes
  pub proof : PaymentRequestProof

module _ ⦃c : Crypto⦄ where
  unfoldable pub derive_payment_request_secret_key : ChildRandomness → Name → Bytes
  derive_payment_request_secret_key child_randomness name =
      c.hkdf name.text child_randomness (codes "CRS-ASC-child-secret-key")

  unfoldable pub derive_payment_request_pseudonym : ChildRandomness → Name → Point → Bytes
  derive_payment_request_pseudonym child_randomness name g =
      let csk = derive_payment_request_secret_key child_randomness name in
      c.point_to_bytes (g · c.bytes_to_scalar csk)

  unfoldable pub payment_request_challenge : Point → Bytes → Point → Scalar
  payment_request_challenge g pseudonym r_point = c.bytes_to_scalar (
      c.sha256 (
        codes "CRS-ASC-schnorr-child-auth"
        ++ (c.point_to_bytes g ++ (pseudonym ++ c.point_to_bytes r_point))))

  -- `t` is the value of `random_scalar`.
  unfoldable pub prove_payment_request :
      ChildRandomness → Name → Point → Scalar → PaymentRequestProof
  prove_payment_request child_randomness name g t =
      let csk_scalar =
        c.bytes_to_scalar (derive_payment_request_secret_key child_randomness name) in
      let pseudonym = c.point_to_bytes (g · csk_scalar) in
      let r_point = g · t in
      let e = payment_request_challenge g pseudonym r_point in
      record { r = c.point_to_bytes r_point; s = c.scalar_to_bytes (t ⊕ e ⊗ csk_scalar) }

  unfoldable pub verify_payment_request : Point → Bytes → PaymentRequestProof → Bool
  verify_payment_request g pseudonym proof = elim (c.point_from_bytes proof.r) [
    | none ↦ false
    | some r_point ↦ elim (c.point_from_bytes pseudonym) [
      | none ↦ false
      | some phi ↦
          let e = payment_request_challenge g pseudonym r_point in
          c.point_eq (g · c.bytes_to_scalar proof.s) (r_point ⊞ phi · e)
    ]
  ]

  unfoldable pub create_payment_request :
      ChildRandomness → Name → Point → ℕ → Scalar → PaymentRequest
  create_payment_request child_randomness name g amount t = record {
    amount = amount;
    pseudonym = derive_payment_request_pseudonym child_randomness name g;
    proof = prove_payment_request child_randomness name g t;
  }
