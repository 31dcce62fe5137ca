-- ===== src/PaymentIdentity/Verify.antt =====
-- `verify_payment_identity_registration_proof`, `verify_payment_identity_registration` and
-- `verify_name_revelation` of core/payment_identity.rs.
use veiled.Prelude.{
  ℕ, suc, ◌+◌, ◌^◌, Bool, true, false, List, [], ◌∷◌, Option, none, some, map, Bytes, length,
  get_or, leb, ◌==◌, ◌&&◌, if◌then◌else◌, ◌===◌, list_eq, nat_eq, Outcome, ok, ◌>>=◌,
}
use veiled.Crypto.{Crypto, Scalar, Point, ◌⊖◌, ◌⊗◌, ◌⊞◌, ◌⊟◌, ◌·◌}
use veiled.Crypto.Loops.{for_sum, for_sub, scalar_prod}
use veiled.Types.{Commitment}
use veiled.Utils.{bit_generator, fiat_shamir_challenge, schnorr_challenge}
use veiled.Proof.{PaymentIdentityRegistrationProof, PaymentIdentityRegistration}
use veiled.Crs.{Crs, num_merchants, h}
use veiled.PaymentIdentity.Poly.{bit, pow}
use veiled.PaymentIdentity.Prove.{others}

-- `match decoded { Some(p) => …, None => return false }`
unfoldable pub or_false {ℓ κ} :
    {E : Type ℓ} {A : Type κ} → Option A → (A → Outcome E Bool) → Outcome E Bool
or_false none k = ok false
or_false (some a) k = k a

-- `if !test { return false }`
unfoldable pub require {ℓ} : {E : Type ℓ} → Bool → Outcome E Bool → Outcome E Bool
require true k = k
require false k = ok false

module _ ⦃c : Crypto⦄ where
  unfoldable pub decode_points : List Bytes → Option (List Point)
  decode_points [] = some []
  decode_points (x ∷ xs) = elim (c.point_from_bytes x) [
    | none ↦ none
    | some p ↦ elim (decode_points xs) [ none ↦ none | some ps ↦ some (p ∷ ps) ]
  ]

  -- D_i = Φ_i - shift; what is no point counts as the identity.
  unfoldable pub shifted : Point → Commitment → Point
  shifted shift x = elim (c.point_from_bytes x) [ none ↦ c.identity | some pt ↦ pt ⊟ shift ]

  -- The terms z_m·h_m, with the responses from `resp_idx`: the sum and the next index.
  unfoldable pub add_others {κ} :
      {E : Type κ} → Crs → List Bytes → Point → ℕ → List ℕ → Outcome E (Point × ℕ)
  add_others crs z_responses acc resp_idx [] = ok (acc, resp_idx)
  add_others crs z_responses acc resp_idx (m ∷ ms) = do
    hm ← h crs m
    add_others crs z_responses (acc ⊞ hm · c.bytes_to_scalar (get_or z_responses resp_idx []))
        (suc resp_idx) ms

  -- 4.6: nul_l = s_l·g, and the Schnorr proof of it.
  unfoldable pub check_value : Point → Bytes → PaymentIdentityRegistrationProof → Bool
  check_value g public_nullifier proof =
      let s_l = c.bytes_to_scalar proof.nullifier_scalar in
      (c.point_to_bytes (g · s_l) === public_nullifier)
      && elim (c.point_from_bytes proof.schnorr_r) [
        | none ↦ false
        | some schnorr_r ↦ elim (c.point_from_bytes public_nullifier) [
          | none ↦ false
          | some nul_point ↦
              c.point_eq (g · c.bytes_to_scalar proof.schnorr_s)
                (schnorr_r ⊞ nul_point · schnorr_challenge g public_nullifier schnorr_r)
        ]
      ]

module _ ⦃c : Crypto⦄ (dim : ℕ) where
  -- Check 1: z_a·g == A + x·B - Σ_k f[k]·H_k
  unfoldable pub check_consistency : Point → Point → Point → Scalar → Scalar → (ℕ → Scalar) → Bool
  check_consistency g a b x z_a f =
      c.point_eq (g · z_a) (for_sub dim (a ⊞ b · x) (λ k. bit_generator k · f k))

  -- Check 2: z_c·g == x·C + D - Σ_k (f[k]·(x - f[k]))·H_k
  unfoldable pub check_bitness : Point → Point → Point → Scalar → Scalar → (ℕ → Scalar) → Bool
  check_bitness g c' d x z_c f =
      c.point_eq (g · z_c) (for_sub dim (c' · x ⊞ d) (λ k. bit_generator k · (f k ⊗ (x ⊖ f k))))

  -- p_j(x)
  unfoldable pub evaluate : Scalar → (ℕ → Scalar) → ℕ → Scalar
  evaluate x f j = scalar_prod dim (λ k. if bit j k then f k else x ⊖ f k)

  -- Σ_j p_j(x)·D_j
  unfoldable pub membership_lhs : Scalar → (ℕ → Scalar) → List Point → Point
  membership_lhs x f d_set =
      for_sum (2 ^ dim) c.identity (λ j. get_or d_set j c.identity · evaluate x f j)

  -- z_g·g + Σ_{m≠l} z_m·h_m + z_name·h_name + Σ_k x^k·E[k]
  unfoldable pub membership_rhs {κ} :
      {E : Type κ} → Crs → ℕ → List Bytes → Scalar → List Point → Outcome E Point
  membership_rhs crs service_index z_responses x e_poly = do
    let z_g = c.bytes_to_scalar (get_or z_responses 0 [])
    (acc, resp_idx) ←
        add_others crs z_responses (c.identity ⊞ crs.g · z_g) 1
          (others service_index (num_merchants crs))
    let z_name = c.bytes_to_scalar (get_or z_responses resp_idx [])
    ok (for_sum dim (acc ⊞ crs.h_name · z_name) (λ k. get_or e_poly k c.identity · pow x k))

  unfoldable pub verify_payment_identity_registration_proof {κ} :
      {E : Type κ}
      → Crs
      → List Commitment
      → ℕ
      → Bytes
      → Bytes
      → Bytes
      → PaymentIdentityRegistrationProof
      → Outcome E Bool
  verify_payment_identity_registration_proof crs anonymity_set service_index set_id pseudonym
        public_nullifier proof =
      require (length anonymity_set == 2 ^ dim) (
        require (leb 1 service_index && leb service_index (num_merchants crs)) (
          require (length proof.z_responses == num_merchants crs + 1) (do
            h_l ← h crs service_index
            let shift = h_l · c.bytes_to_scalar proof.nullifier_scalar
            let d_set = map (shifted shift) anonymity_set
            or_false (c.point_from_bytes proof.a) λ a. or_false (c.point_from_bytes proof.b) λ b.
                or_false (c.point_from_bytes proof.c) λ c'.
                  or_false (c.point_from_bytes proof.d) λ d.
                    or_false (decode_points proof.e_poly) λ e.
                      let f : ℕ → Scalar = λ k. c.bytes_to_scalar (get_or proof.f k []) in
                      let z_a = c.bytes_to_scalar proof.z_a in
                      let z_c = c.bytes_to_scalar proof.z_c in
                      let x =
                        fiat_shamir_challenge crs.g pseudonym public_nullifier service_index set_id
                          proof.name_scalar d_set (a, b, c', d) e in
                      require (check_consistency crs.g a b x z_a f) (
                        require (check_bitness crs.g c' d x z_c f) (do
                          rhs ← membership_rhs crs service_index proof.z_responses x e
                          require (c.point_eq (membership_lhs x f d_set) rhs)
                              (ok (check_value crs.g public_nullifier proof)))))))

  unfoldable pub verify_payment_identity_registration {κ} :
      {E : Type κ} → Crs → List Commitment → PaymentIdentityRegistration → Outcome E Bool
  verify_payment_identity_registration crs anonymity_set reg =
      verify_payment_identity_registration_proof crs anonymity_set reg.service_index reg.set_id
        reg.pseudonym reg.public_nullifier reg.proof

-- SHA256(friendly_name) == proof.name_scalar
unfoldable pub verify_name_revelation : ⦃c : Crypto⦄ → Bytes → Bytes → Bool
verify_name_revelation ⦃c⦄ proof_name_scalar claimed_name =
    c.sha256 claimed_name === proof_name_scalar
