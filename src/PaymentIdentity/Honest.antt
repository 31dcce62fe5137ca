-- ===== src/PaymentIdentity/Honest.antt =====
-- The verifier of core/payment_identity.rs on the proof of the prover.
use veiled.Prelude.{
  get_elem?→get_or, get_elem?_below, ℕ, ◌+◌, ◌-◌, ◌^◌, ◌≤◌, ◌<◌, ◌≡◌, refl, sym, ap, ◌∙◌, true,
  arith, List, [], map, some, Bytes, length, length-map, get_or, get_or-map, get_elem?, tabulate,
  get_or-tabulate, leb, ltb, ◌==◌, ◌&&◌, ◌===◌, beq_refl, list_eq, nat_eq, ok, bind-ok,
  guard_inverts, ok_injective,
}
use veiled.Crypto.{Crypto, Scalar, Point, ◌⊕◌, ◌⊗◌, ◌⊞◌, ◌·◌}
use veiled.Crypto.Loops.{for_sum, for_sum_congr}
use veiled.Types.{Nullifier, Commitment}
use veiled.Utils.{fiat_shamir_challenge, schnorr_challenge}
use veiled.Proof.{PaymentIdentityRegistrationProof}
use veiled.Crs.{Crs, num_merchants, commit_master_identity}
use veiled.PaymentIdentity.Poly.{pow}
use veiled.PaymentIdentity.Prove.{
  others, Nonces, assemble, prove_payment_identity_registration, cap_a, cap_b, cap_c, cap_d, cap_e,
}
use veiled.PaymentIdentity.Verify.{
  shifted, check_consistency, check_bitness, check_value, membership_lhs,
  verify_payment_identity_registration_proof,
}
use veiled.PaymentIdentity.BitChecks.{honest_f, check_consistency-honest, check_bitness-honest}
use veiled.PaymentIdentity.Membership.{dot_from, membership-honest}
use veiled.PaymentIdentity.Others.{gen_of, h_in_range, generators_at-map}
use veiled.PaymentIdentity.Opening.{scalar_of, dot_from_congr}
use veiled.PaymentIdentity.Decoded.{
  require-true, or_false-some, decode_points-map, AllPoints, shift_all-shifted, length-responses,
  read-responses, read-tabulate,
}
use veiled.PaymentIdentity.Completeness.{
  active, witnesses, identity_point, active-others, length-active, length-witnesses,
  membership_rhs-dot, shifted-opens,
}

module _ ⦃c : Crypto⦄ where
  -- The Schnorr proof of the public nullifier.
  pub check_value-honest :
      (g : Point) (public_nullifier : Bytes) (proof : PaymentIdentityRegistrationProof)
      (nonce : Scalar)
      → public_nullifier ≡ c.point_to_bytes (g · c.bytes_to_scalar proof.nullifier_scalar)
      → proof.schnorr_r ≡ c.point_to_bytes (g · nonce)
      → proof.schnorr_s
        ≡ c.scalar_to_bytes (
            nonce
            ⊕ schnorr_challenge g public_nullifier (g · nonce)
              ⊗ c.bytes_to_scalar proof.nullifier_scalar)
      → check_value g public_nullifier proof ≡ true
  unfolding check_value
  check_value-honest g pn proof nonce e r s =
      let key = c.bytes_to_scalar proof.nullifier_scalar in
      let ch = schnorr_challenge g pn (g · nonce) in
      let from_r : c.point_from_bytes proof.schnorr_r ≡ some (g · nonce) =
        ap c.point_from_bytes r ∙ c.point_from_bytes-point_to_bytes (g · nonce) in
      let from_pn : c.point_from_bytes pn ≡ some (g · key) =
        ap c.point_from_bytes e ∙ c.point_from_bytes-point_to_bytes (g · key) in
      let same : (c.point_to_bytes (g · key) === pn) ≡ true =
        ap (λ t. c.point_to_bytes (g · key) === t) e ∙ beq_refl (c.point_to_bytes (g · key)) in
      rw (same, from_r, from_pn)
        ((c.point_eq_iff _ _).1 (
          ap (λ t. g · c.bytes_to_scalar t) s
          ∙ ap (λ t. g · t) (c.bytes_to_scalar-scalar_to_bytes (nonce ⊕ ch ⊗ key))
          ∙ c.smul-add g nonce (ch ⊗ key)
          ∙ ap (λ t. g · nonce ⊞ g · t) (c.mul_comm ch key)
          ∙ ap (λ t. g · nonce ⊞ t) (c.smul-mul g key ch)))

module _ ⦃c : Crypto⦄ (dim : ℕ) (crs : Crs) (set : List Commitment) (index l : ℕ)
    (set_id key : Bytes) (nuls : List Nullifier) (pseudonym public_nullifier name_scalar : Bytes)
    (n : Nonces) where
  abbrev pub shift : Point
  shift = gen_of crs l · scalar_of crs nuls l

  abbrev pub d_set : List Point
  d_set = map (shifted shift) set

  abbrev pub honest_proof : PaymentIdentityRegistrationProof
  honest_proof =
      assemble dim crs index l set_id key nuls pseudonym public_nullifier name_scalar n d_set
        (active crs l)

  abbrev honest_x : Scalar
  honest_x =
      fiat_shamir_challenge crs.g pseudonym public_nullifier l set_id name_scalar d_set
        (
          cap_a dim crs.g index n,
          cap_b dim crs.g index n,
          cap_c dim crs.g index n,
          cap_d dim crs.g index n,
        )
        (tabulate dim (cap_e dim index n (active crs l) d_set))

  module _ (gens_eq : length crs.generators ≡ num_merchants crs) (l1 : 1 ≤ l)
      (l2 : l ≤ num_merchants crs) (set_len : length set ≡ 2 ^ dim) (hi : index < 2 ^ dim)
      (nuls_len : length nuls ≡ num_merchants crs) where
    pub prove-honest :
        AllPoints set
        → prove_payment_identity_registration dim crs set index l set_id key nuls pseudonym
            public_nullifier name_scalar n
          ≡ ok honest_proof
    unfolding prove_payment_identity_registration
    prove-honest points =
        let t1 : (length set == 2 ^ dim) ≡ true = ground arith in
        let t2 : ltb index (2 ^ dim) ≡ true = ground arith in
        let t3 : (leb 1 l && leb l (num_merchants crs)) ≡ true = ground arith in
        let t4 : (length nuls == num_merchants crs) ≡ true = ground arith in
        rw (t1, t2, t3, t4)
          (bind-ok _ (h_in_range crs l l1 (omega arith))
            ∙ bind-ok _ (shift_all-shifted shift set points)
            ∙ bind-ok _ (
                generators_at-map crs (others l (num_merchants crs))
                  (active-others crs l gens_eq l1 l2)))

    membership-passes :
        get_elem? set index ≡ some (c.point_to_bytes (identity_point crs nuls key name_scalar))
        → membership_lhs dim honest_x (λ k. c.bytes_to_scalar (get_or honest_proof.f k [])) d_set
          ≡ dot_from
              (λ i. c.bytes_to_scalar (get_or honest_proof.z_responses i []))
              0
              (active crs l)
            ⊞ for_sum dim c.identity (λ k.
              get_or (tabulate dim (cap_e dim index n (active crs l) d_set)) k c.identity
              · pow honest_x k)
    unfolding assemble
    membership-passes at_index =
        let ws = witnesses crs nuls key name_scalar l in
        membership-honest dim index n honest_x _ d_set
          (λ k lt. read-tabulate dim k (honest_f index n honest_x) lt) hi (λ t. get_or ws t c.zero)
          (active crs l)
          (get_or-map (shifted shift) set index [] c.identity (omega arith)
            ∙ ap (shifted shift) (get_elem?→get_or set index [] _ at_index)
            ∙ shifted-opens crs l gens_eq l1 l2 nuls key name_scalar nuls_len)
        ∙ ap
            (λ t.
              t
              ⊞ for_sum dim c.identity
                  (λ k. cap_e dim index n (active crs l) d_set k · pow honest_x k))
            (dot_from_congr _ _ 0 (num_merchants crs + 1) (active crs l)
              (λ k lt. sym (
                read-responses dim n.rho honest_x k ws
                  (omega (arith, length-witnesses crs l gens_eq l1 l2 nuls key name_scalar))))
              (omega (arith, length-active crs l gens_eq l1 l2)))
        ∙ ap
            (λ t.
              dot_from (λ i. c.bytes_to_scalar (get_or honest_proof.z_responses i [])) 0
                (active crs l)
              ⊞ t)
            (for_sum_congr dim c.identity _ _ (λ k lt.
              ap (λ t. t · pow honest_x k)
                (sym
                  (get_or-tabulate dim k (cap_e dim index n (active crs l) d_set) c.identity lt))))

    pub verify-honest {κ} :
        {E : Type κ}
        → public_nullifier ≡ c.point_to_bytes (crs.g · scalar_of crs nuls l)
        → get_elem? set index ≡ some (c.point_to_bytes (identity_point crs nuls key name_scalar))
        → verify_payment_identity_registration_proof dim {E = E} crs set l set_id pseudonym
            public_nullifier honest_proof
          ≡ ok true
    unfolding verify_payment_identity_registration_proof assemble
    verify-honest value at_index =
        let t1 : (length set == 2 ^ dim) ≡ true = ground arith in
        let t2 : (leb 1 l && leb l (num_merchants crs)) ≡ true = ground arith in
        let count : length honest_proof.z_responses ≡ num_merchants crs + 1 =
          length-map c.scalar_to_bytes _
          ∙ length-responses dim n.rho honest_x 0 (witnesses crs nuls key name_scalar l)
          ∙ length-witnesses crs l gens_eq l1 l2 nuls key name_scalar in
        let t3 : (length honest_proof.z_responses == num_merchants crs + 1) ≡ true = ground arith in
        let f_read : (k : ℕ)
            → k < dim
            → c.bytes_to_scalar (get_or honest_proof.f k []) ≡ honest_f index n honest_x k =
          λ k lt. read-tabulate dim k (honest_f index n honest_x) lt in
        require-true _ t1
        ∙ require-true _ t2
        ∙ require-true _ t3
        ∙ bind-ok _ (h_in_range crs l l1 (omega arith))
        ∙ or_false-some _ (c.point_from_bytes-point_to_bytes (cap_a dim crs.g index n))
        ∙ or_false-some _ (c.point_from_bytes-point_to_bytes (cap_b dim crs.g index n))
        ∙ or_false-some _ (c.point_from_bytes-point_to_bytes (cap_c dim crs.g index n))
        ∙ or_false-some _ (c.point_from_bytes-point_to_bytes (cap_d dim crs.g index n))
        ∙ or_false-some _
            (decode_points-map (tabulate dim (cap_e dim index n (active crs l) d_set)))
        ∙ require-true _ (
            ap
              (λ t.
                check_consistency dim crs.g (cap_a dim crs.g index n) (cap_b dim crs.g index n)
                  honest_x t (λ k. c.bytes_to_scalar (get_or honest_proof.f k [])))
              (c.bytes_to_scalar-scalar_to_bytes (n.r_a ⊕ n.r_b ⊗ honest_x))
            ∙ check_consistency-honest dim crs.g index n honest_x _ f_read)
        ∙ require-true _ (
            ap
              (λ t.
                check_bitness dim crs.g (cap_c dim crs.g index n) (cap_d dim crs.g index n) honest_x
                  t (λ k. c.bytes_to_scalar (get_or honest_proof.f k [])))
              (c.bytes_to_scalar-scalar_to_bytes (n.r_c ⊗ honest_x ⊕ n.r_d))
            ∙ check_bitness-honest dim crs.g index n honest_x _ f_read)
        ∙ bind-ok _ (membership_rhs-dot crs l gens_eq l1 l2 dim honest_proof.z_responses honest_x _)
        ∙ require-true _ ((c.point_eq_iff _ _).1 (membership-passes at_index))
        ∙ ap ok
            (check_value-honest crs.g public_nullifier honest_proof n.schnorr_nonce value refl refl)

module _ ⦃c : Crypto⦄ where
  -- What a computed commitment is, and how many nullifiers it takes.
  pub commit_master_identity-inverts :
      (crs : Crs) (nuls : List Nullifier) (key name_scalar : Bytes) (phi : Commitment)
      → commit_master_identity crs nuls key name_scalar ≡ ok phi
      → (length nuls ≡ length crs.generators)
        × (phi ≡ c.point_to_bytes (identity_point crs nuls key name_scalar))
  unfolding commit_master_identity
  commit_master_identity-inverts crs nuls key name_scalar phi e =
      let (same, rest) = guard_inverts (length nuls == length crs.generators) _ _ e in
      (ground arith, sym (ok_injective rest))

-- The theorem of the component: what the prover makes for a commitment of the set is accepted.
module _ ⦃c : Crypto⦄ where
  -- For a CRS with a generator for each merchant, a set of 2^M encoded points, a service index in
  -- range, a commitment in the set that opens to the inputs and the public nullifier of the service,
  -- the prover returns a proof for every choice of nonces, the verifier accepts it, and it carries
  -- the name scalar.
  pub prove-verify {κ} :
      {E : Type κ} (dim : ℕ) (crs : Crs) (anonymity_set : List Commitment) (index service_index : ℕ)
      (set_id blinding_key : Bytes) (nullifiers : List Nullifier)
      (pseudonym public_nullifier name_scalar : Bytes) (n : Nonces) (phi : Commitment)
      → length crs.generators ≡ num_merchants crs
      → length anonymity_set ≡ 2 ^ dim
      → AllPoints anonymity_set
      → 1 ≤ service_index
      → service_index ≤ num_merchants crs
      → commit_master_identity crs nullifiers blinding_key name_scalar ≡ ok phi
      → get_elem? anonymity_set index ≡ some phi
      → public_nullifier
        ≡ c.point_to_bytes (crs.g · c.bytes_to_scalar (get_or nullifiers (service_index - 1) []))
      → (proof : PaymentIdentityRegistrationProof) × ((prove_payment_identity_registration dim crs
              anonymity_set index service_index set_id blinding_key nullifiers pseudonym
              public_nullifier name_scalar n
            ≡ ok proof)
          × (verify_payment_identity_registration_proof dim {E = E} crs anonymity_set service_index
                set_id pseudonym public_nullifier proof
              ≡ ok true)
          × (proof.name_scalar ≡ name_scalar))
  unfolding assemble
  prove-verify dim crs set index l set_id key nuls pseudonym pn name_scalar n phi ge sl pts l1 l2 cm
        at v =
      let (nuls_len, is_phi) = commit_master_identity-inverts crs nuls key name_scalar phi cm in
      let hi : index < 2 ^ dim = omega (arith, get_elem?_below set index phi at) in
      (
        honest_proof dim crs set index l set_id key nuls pseudonym pn name_scalar n,
        (
          prove-honest dim crs set index l set_id key nuls pseudonym pn name_scalar n ge l1 l2 sl hi
              (omega arith) pts,
          verify-honest dim crs set index l set_id key nuls pseudonym pn name_scalar n ge l1 l2 sl
              hi (omega arith) v (at ∙ ap some is_phi),
          refl,
        ),
      )
