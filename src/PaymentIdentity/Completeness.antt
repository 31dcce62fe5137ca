-- ===== src/PaymentIdentity/Completeness.antt =====
-- The checks of the verifier on what the honest prover sends.
use veiled.Prelude.{
  ℕ, ◌+◌, ◌≤◌, ◌≡◌, sym, ap, ◌∙◌, true, arith, List, [], ◌∷◌, ◌++◌, map, none, some, Bytes, length,
  length-append, length-map, get_or, ◌==◌, ok, bind-ok,
}
use veiled.Crypto.{Crypto, Scalar, Point, ◌⊞◌, ◌⊟◌, ◌·◌}
use veiled.Crypto.Loops.{for_sum, for_sum_acc}
use veiled.Types.{Nullifier}
use veiled.Crs.{Crs, num_merchants, add_values, commit_master_identity}
use veiled.PaymentIdentity.Poly.{pow}
use veiled.PaymentIdentity.Prove.{others}
use veiled.PaymentIdentity.Verify.{shifted, membership_rhs}
use veiled.PaymentIdentity.Membership.{dot_from}
use veiled.PaymentIdentity.Others.{length-others, Within, others-Within, gen_of, add_others-dot}
use veiled.PaymentIdentity.Opening.{dot, dot_from-dot, dot_from_snoc, scalar_of, shifted_opening}

module _ ⦃c : Crypto⦄ (crs : Crs) where
  -- The generators of the proof for service l: g, those of the other services, h_name.
  abbrev pub active : ℕ → List Point
  active l = crs.g ∷ (map (gen_of crs) (others l (num_merchants crs)) ++ crs.h_name ∷ [])

  abbrev pub witnesses : List Nullifier → Bytes → Bytes → ℕ → List Scalar
  witnesses nuls key name_scalar l =
      c.bytes_to_scalar key
      ∷ (map (scalar_of crs nuls) (others l (num_merchants crs))
          ++ c.bytes_to_scalar name_scalar ∷ [])

  -- The point of Φ.
  abbrev pub identity_point : List Nullifier → Bytes → Bytes → Point
  identity_point nuls key name_scalar =
      add_values (crs.g · c.bytes_to_scalar key) crs.generators nuls
      ⊞ crs.h_name · c.bytes_to_scalar name_scalar

  pub commit_master_identity-ok :
      (nuls : List Nullifier) (key name_scalar : Bytes)
      → length nuls ≡ length crs.generators
      → commit_master_identity crs nuls key name_scalar
        ≡ ok (c.point_to_bytes (identity_point nuls key name_scalar))
  unfolding commit_master_identity
  commit_master_identity-ok nuls key name_scalar e =
      let t : (length nuls == length crs.generators) ≡ true = ground arith in rw t

  module _ (l : ℕ) (gens_eq : length crs.generators ≡ num_merchants crs) (l1 : 1 ≤ l)
      (l2 : l ≤ num_merchants crs) where
    pub active-others : Within (length crs.generators) (others l (num_merchants crs))
    active-others =
        others-Within (length crs.generators) l 1 (num_merchants crs) (omega arith) (omega arith)

    pub length-active : length (active l) ≡ num_merchants crs + 1
    length-active = omega (
      arith,
      length-append (map (gen_of crs) (others l (num_merchants crs))) (crs.h_name ∷ []),
      length-map (gen_of crs) (others l (num_merchants crs)),
      length-others l 1 (num_merchants crs) l1 (omega arith),
    )

    pub length-witnesses :
        (nuls : List Nullifier) (key name_scalar : Bytes)
        → length (witnesses nuls key name_scalar l) ≡ num_merchants crs + 1
    length-witnesses nuls key name_scalar = omega (
      arith,
      length-append (map (scalar_of crs nuls) (others l (num_merchants crs)))
          (c.bytes_to_scalar name_scalar ∷ []),
      length-map (scalar_of crs nuls) (others l (num_merchants crs)),
      length-others l 1 (num_merchants crs) l1 (omega arith),
    )

    -- The right side of check 3, as a sum over the generators.
    pub membership_rhs-dot {κ} :
        {E : Type κ} (dim : ℕ) (z_responses : List Bytes) (x : Scalar) (e : List Point)
        → membership_rhs dim {E = E} crs l z_responses x e
          ≡ ok (
              dot_from (λ i. c.bytes_to_scalar (get_or z_responses i [])) 0 (active l)
              ⊞ for_sum dim c.identity (λ k. get_or e k c.identity · pow x k))
    unfolding membership_rhs dot_from
    membership_rhs-dot dim zr x e =
        let z : ℕ → Scalar = λ i. c.bytes_to_scalar (get_or zr i []) in
        let ms = others l (num_merchants crs) in
        bind-ok _ (add_others-dot crs zr (c.identity ⊞ crs.g · z 0) 1 ms active-others)
        ∙ ap ok (
            for_sum_acc dim _ (λ k. get_or e k c.identity · pow x k)
            ∙ ap (λ t. t ⊞ for_sum dim c.identity (λ k. get_or e k c.identity · pow x k))
                (ap (λ t. t ⊞ dot_from z 1 (map (gen_of crs) ms) ⊞ crs.h_name · z (1 + length ms))
                    (c.identity-padd (crs.g · z 0))
                  ∙ c.padd_assoc (crs.g · z 0) _ _
                  ∙ ap (λ t. crs.g · z 0 ⊞ (dot_from z 1 (map (gen_of crs) ms) ⊞ crs.h_name · z t))
                      {x = 1 + length ms} (omega (arith, length-map (gen_of crs) ms))
                  ∙ ap (λ t. crs.g · z 0 ⊞ t)
                      (sym (dot_from_snoc z 1 (map (gen_of crs) ms) crs.h_name))))

    -- The commitment of the prover, shifted, opens to the witnesses.
    pub shifted-opens :
        (nuls : List Nullifier) (key name_scalar : Bytes)
        → length nuls ≡ num_merchants crs
        → shifted
            (gen_of crs l · scalar_of crs nuls l)
            (c.point_to_bytes (identity_point nuls key name_scalar))
          ≡ dot_from (λ i. get_or (witnesses nuls key name_scalar l) i c.zero) 0 (active l)
    unfolding shifted
    shifted-opens nuls key name_scalar e =
        ap (λ o. elim o [ none ↦ c.identity | some pt ↦ pt ⊟ gen_of crs l · scalar_of crs nuls l ])
          (c.point_from_bytes-point_to_bytes (identity_point nuls key name_scalar))
        ∙ shifted_opening crs nuls l (c.bytes_to_scalar key) (c.bytes_to_scalar name_scalar)
            (omega arith) l1 (omega arith)
        ∙ ap
            (λ t. dot (crs.g ∷ (map (gen_of crs) (others l t) ++ crs.h_name ∷ [])) (
              c.bytes_to_scalar key
              ∷ (map (scalar_of crs nuls) (others l t) ++ c.bytes_to_scalar name_scalar ∷ [])))
            gens_eq
        ∙ sym (
            dot_from-dot (active l) (witnesses nuls key name_scalar l)
              (length-active ∙ sym (length-witnesses nuls key name_scalar)))
