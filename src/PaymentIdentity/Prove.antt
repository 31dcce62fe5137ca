-- ===== src/PaymentIdentity/Prove.antt =====
-- `prove_payment_identity_registration` of core/payment_identity.rs.
use veiled.Prelude.{
  ℕ, zero, suc, ◌-◌, ◌^◌, List, [], ◌∷◌, ◌++◌, map, Bytes, length, get_or, tabulate, ltb, leb, ◌==◌,
  ◌&&◌, if◌then◌else◌, Outcome, ok, guard, expect, ◌>>=◌, ◌>>◌,
}
use veiled.Crypto.{Crypto, Scalar, Point, ◌⊕◌, ◌⊖◌, ◌⊗◌, ◌⊞◌, ◌⊟◌, ◌·◌}
use veiled.Crypto.Loops.{for_sum, scalar_sum}
use veiled.Types.{Nullifier, Commitment}
use veiled.Utils.{bit_generator, fiat_shamir_challenge, schnorr_challenge}
use veiled.Proof.{PaymentIdentityRegistrationProof}
use veiled.Crs.{Crs, num_merchants, h}
use veiled.PaymentIdentity.Poly.{bit, pow, poly}

pub data ProveError : Type 0 where
  set_len index_range service_index_range nullifier_count : ProveError

-- The numbers m of `for m in first.. { if m != service_index { … } }`, `count` rounds.
abbrev pub others_from : ℕ → ℕ → ℕ → List ℕ
others_from service_index first zero = []
others_from service_index first (suc count) =
    let rest = others_from service_index (suc first) count in
    if first == service_index then rest else first ∷ rest

-- m in 1..=l_count with m ≠ service_index
abbrev pub others : ℕ → ℕ → List ℕ
others service_index l_count = others_from service_index 1 l_count

module _ ⦃c : Crypto⦄ where
  -- The values of `random_scalar` that one proof draws.
  pub record Nonces : Type 0 where
    pub a : ℕ → Scalar
    pub r_a : Scalar
    pub r_b : Scalar
    pub r_c : Scalar
    pub r_d : Scalar
    pub rho : ℕ → ℕ → Scalar
    pub schnorr_nonce : Scalar

  -- D[i] = Φ_i - shift, where each Φ_i must be the encoding of a point.
  unfoldable pub shift_all {κ} : {E : Type κ} → Point → List Commitment → Outcome E (List Point)
  shift_all shift [] = ok []
  shift_all shift (x ∷ xs) = do
    pt ← expect (c.point_from_bytes x)
    rest ← shift_all shift xs
    ok ((pt ⊟ shift) ∷ rest)

  unfoldable pub generators_at {κ} : {E : Type κ} → Crs → List ℕ → Outcome E (List Point)
  generators_at crs [] = ok []
  generators_at crs (m ∷ ms) = do hm ← h crs m; rest ← generators_at crs ms; ok (hm ∷ rest)

  -- The scalars of the bits of the index.
  abbrev pub bit_scalar : ℕ → ℕ → Scalar
  bit_scalar index k = if bit index k then c.one else c.zero

  -- Σ_gen ρ[gen][k]·gen, the generators counted from `gen_idx`.
  unfoldable pub blind : (ℕ → ℕ → Scalar) → ℕ → ℕ → Point → List Point → Point
  blind rho k gen_idx acc [] = acc
  blind rho k gen_idx acc (gen ∷ gens) = blind rho k (suc gen_idx) (acc ⊞ gen · rho gen_idx k) gens

  -- z = w·x^M - Σ_k ρ[gen][k]·x^k for each witness scalar w.
  unfoldable pub responses : ℕ → (ℕ → ℕ → Scalar) → Scalar → ℕ → List Scalar → List Scalar
  responses dim rho x gen_idx [] = []
  responses dim rho x gen_idx (w ∷ ws) =
      (w ⊗ pow x dim ⊖ scalar_sum dim (λ k. rho gen_idx k ⊗ pow x k))
      ∷ responses dim rho x (suc gen_idx) ws

module _ ⦃c : Crypto⦄ (dim : ℕ) where
  -- The points A, B, C, D and E_k of the first message.
  module _ (g : Point) (index : ℕ) (n : Nonces) where
    unfoldable pub cap_a : Point
    cap_a = for_sum dim (g · n.r_a) (λ k. bit_generator k · n.a k)

    unfoldable pub cap_b : Point
    cap_b = for_sum dim (g · n.r_b) (λ k. bit_generator k · bit_scalar index k)

    unfoldable pub cap_c : Point
    cap_c =
        for_sum dim (g · n.r_c)
          (λ k. bit_generator k · (n.a k ⊗ (c.one ⊖ (c.one ⊕ c.one) ⊗ bit_scalar index k)))

    unfoldable pub cap_d : Point
    cap_d = for_sum dim (g · n.r_d) (λ k. bit_generator k · (c.neg (n.a k) ⊗ n.a k))

  -- E[k]: the blinding over the active generators, then the coefficient of x^k of each p_j on D[j].
  unfoldable pub cap_e : ℕ → Nonces → List Point → List Point → ℕ → Point
  cap_e index n active_gens d_set k =
      for_sum (2 ^ dim) (blind n.rho k 0 c.identity active_gens)
        (λ j. get_or d_set j c.identity · poly (bit_scalar index) n.a j dim k)

  -- The proof, once the shifted commitments and the active generators are known.
  unfoldable pub assemble :
      Crs
      → ℕ
      → ℕ
      → Bytes
      → Bytes
      → List Nullifier
      → Bytes
      → Bytes
      → Bytes
      → Nonces
      → List Point
      → List Point
      → PaymentIdentityRegistrationProof
  assemble crs index service_index set_id blinding_key nullifier_scalars pseudonym public_nullifier
        name_scalar n d_set active_gens =
      let s_l = c.bytes_to_scalar (get_or nullifier_scalars (service_index - 1) []) in
      let a = cap_a crs.g index n in
      let b = cap_b crs.g index n in
      let c' = cap_c crs.g index n in
      let d = cap_d crs.g index n in
      let e = tabulate dim (cap_e index n active_gens d_set) in
      let x =
        fiat_shamir_challenge crs.g pseudonym public_nullifier service_index set_id name_scalar
          d_set (a, b, c', d) e in
      let witness_scalars =
        c.bytes_to_scalar blinding_key
        ∷ (map (λ m. c.bytes_to_scalar (get_or nullifier_scalars (m - 1) []))
              (others service_index (num_merchants crs))
            ++ c.bytes_to_scalar name_scalar ∷ []) in
      let schnorr_r = crs.g · n.schnorr_nonce in
      let schnorr_e = schnorr_challenge crs.g public_nullifier schnorr_r in
      record {
        a = c.point_to_bytes a;
        b = c.point_to_bytes b;
        c = c.point_to_bytes c';
        d = c.point_to_bytes d;
        e_poly = map c.point_to_bytes e;
        f = tabulate dim (λ k. c.scalar_to_bytes (bit_scalar index k ⊗ x ⊕ n.a k));
        z_a = c.scalar_to_bytes (n.r_a ⊕ n.r_b ⊗ x);
        z_c = c.scalar_to_bytes (n.r_c ⊗ x ⊕ n.r_d);
        z_responses = map c.scalar_to_bytes (responses dim n.rho x 0 witness_scalars);
        schnorr_r = c.point_to_bytes schnorr_r;
        schnorr_s = c.scalar_to_bytes (n.schnorr_nonce ⊕ schnorr_e ⊗ s_l);
        nullifier_scalar = get_or nullifier_scalars (service_index - 1) [];
        name_scalar = name_scalar;
      }

  unfoldable pub prove_payment_identity_registration :
      Crs
      → List Commitment
      → ℕ
      → ℕ
      → Bytes
      → Bytes
      → List Nullifier
      → Bytes
      → Bytes
      → Bytes
      → Nonces
      → Outcome ProveError PaymentIdentityRegistrationProof
  prove_payment_identity_registration crs anonymity_set index service_index set_id blinding_key
        nullifier_scalars pseudonym public_nullifier name_scalar n =
      do
        guard (length anonymity_set == 2 ^ dim) set_len
        guard (ltb index (2 ^ dim)) index_range
        guard (leb 1 service_index && leb service_index (num_merchants crs)) service_index_range
        guard (length nullifier_scalars == num_merchants crs) nullifier_count
        let s_l = c.bytes_to_scalar (get_or nullifier_scalars (service_index - 1) [])
        h_l ← h crs service_index
        d_set ← shift_all (h_l · s_l) anonymity_set
        hs ← generators_at crs (others service_index (num_merchants crs))
        ok (
            assemble crs index service_index set_id blinding_key nullifier_scalars pseudonym
              public_nullifier name_scalar n d_set (crs.g ∷ (hs ++ crs.h_name ∷ [])))
