-- ===== src/PaymentIdentity/Membership.antt =====
-- Check 3 of the verifier of core/payment_identity.rs over any generators, on the E and the
-- responses of the prover.
use veiled.Prelude.{ℕ, suc, ◌^◌, ◌<◌, ◌≡◌, refl, sym, ap, ◌∙◌, List, [], ◌∷◌, get_or, if◌then◌else◌}
use veiled.Crypto.{Crypto, Scalar, Point, ◌⊕◌, ◌⊖◌, ◌⊗◌, ◌⊞◌, ◌·◌}
use veiled.Crypto.Laws.{
  identity-smul, padd-identity, padd_interchange, smul-zero, sub-add_cancel, zero-mul,
}
use veiled.Crypto.Loops.{
  for_sum, scalar_sum, scalar_prod, scalar_prod_congr, for_sum_acc, for_sum_congr, for_sum_split,
  for_sum_times, for_sum_comm, for_sum_single, for_sum-identity, smul-scalar_sum,
}
use veiled.PaymentIdentity.Poly.{bit, pow, poly, coeff_x, coeff_0}
use veiled.PaymentIdentity.PolyLaws.{terms, poly_evaluates, top_same, top_differs, factor_eq}
use veiled.PaymentIdentity.Prove.{Nonces, bit_scalar, blind, cap_e}
use veiled.PaymentIdentity.Verify.{evaluate, membership_lhs}
use veiled.PaymentIdentity.BitChecks.{honest_f}

module _ ⦃c : Crypto⦄ where
  -- Σ_i z(i)·gen_i, the generators counted from i.
  unfoldable pub dot_from : (ℕ → Scalar) → ℕ → List Point → Point
  dot_from z i [] = c.identity
  dot_from z i (gen ∷ gens) = gen · z i ⊞ dot_from z (suc i) gens

  -- Σ_k ρ_i[k]·x^k
  abbrev pub masked : ℕ → (ℕ → ℕ → Scalar) → Scalar → ℕ → Scalar
  masked dim rho x i = scalar_sum dim (λ k. rho i k ⊗ pow x k)

  blind_acc :
      (rho : ℕ → ℕ → Scalar) (k i : ℕ) (acc : Point) (gens : List Point)
      → blind rho k i acc gens ≡ acc ⊞ blind rho k i c.identity gens
  unfolding blind
  blind_acc rho k i acc [] = sym (padd-identity acc)
  blind_acc rho k i acc (gen ∷ gens) =
      blind_acc rho k (suc i) (acc ⊞ gen · rho i k) gens
      ∙ c.padd_assoc acc (gen · rho i k) _
      ∙ ap (λ t. acc ⊞ t)
          (sym (
            ap (λ t. blind rho k (suc i) t gens) (c.identity-padd (gen · rho i k))
            ∙ blind_acc rho k (suc i) (gen · rho i k) gens))

  blind_cons :
      (rho : ℕ → ℕ → Scalar) (k i : ℕ) (gen : Point) (gens : List Point)
      → blind rho k i c.identity (gen ∷ gens) ≡ gen · rho i k ⊞ blind rho k (suc i) c.identity gens
  unfolding blind
  blind_cons rho k i gen gens =
      blind_acc rho k (suc i) (c.identity ⊞ gen · rho i k) gens
      ∙ ap (λ t. t ⊞ blind rho k (suc i) c.identity gens) (c.identity-padd (gen · rho i k))

  module _ (dim : ℕ) (rho : ℕ → ℕ → Scalar) (x : Scalar) where
    -- Σ_k (g·ρ_i[k])·x^k
    masked-smul :
        (gen : Point) (i : ℕ)
        → for_sum dim c.identity (λ k. gen · rho i k · pow x k) ≡ gen · masked dim rho x i
    masked-smul gen i =
        for_sum_congr dim c.identity _ _ (λ k l. sym (c.smul-mul gen (rho i k) (pow x k)))
        ∙ sym (smul-scalar_sum dim gen (λ k. rho i k ⊗ pow x k))

    blinded_sum : (i : ℕ) (gens : List Point) → Point
    blinded_sum i gens = for_sum dim c.identity (λ k. blind rho k i c.identity gens · pow x k)

    blinded_sum_nil : (i : ℕ) → blinded_sum i [] ≡ c.identity
    unfolding blinded_sum blind
    blinded_sum_nil i =
        for_sum_congr dim c.identity _ (λ k. c.identity) (λ k l. identity-smul (pow x k))
        ∙ for_sum-identity dim

    blinded_sum_cons :
        (i : ℕ) (gen : Point) (gens : List Point)
        → blinded_sum i (gen ∷ gens) ≡ gen · masked dim rho x i ⊞ blinded_sum (suc i) gens
    unfolding blinded_sum
    blinded_sum_cons i gen gens =
        for_sum_congr dim c.identity _
          (λ k. gen · rho i k · pow x k ⊞ blind rho k (suc i) c.identity gens · pow x k)
          (λ k l. ap (λ t. t · pow x k) (blind_cons rho k i gen gens) ∙ c.smul-padd _ _ (pow x k))
        ∙ for_sum_split dim (λ k. gen · rho i k · pow x k)
            (λ k. blind rho k (suc i) c.identity gens · pow x k)
        ∙ ap (λ t. t ⊞ for_sum dim c.identity (λ k. blind rho k (suc i) c.identity gens · pow x k))
            (masked-smul gen i)

    unblinded_head :
        (gen : Point) (s r : Scalar) (p q : Point)
        → (gen · (s ⊗ pow x dim ⊖ r) ⊞ p) ⊞ (gen · r ⊞ q) ≡ gen · s · pow x dim ⊞ (p ⊞ q)
    unblinded_head gen s r p q =
        padd_interchange (gen · (s ⊗ pow x dim ⊖ r)) p (gen · r) q
        ∙ ap (λ t. t ⊞ (p ⊞ q))
            (sym (c.smul-add gen (s ⊗ pow x dim ⊖ r) r)
              ∙ ap (λ t. gen · t) (sub-add_cancel (s ⊗ pow x dim) r)
              ∙ c.smul-mul gen s (pow x dim))

    -- The masks of the responses cancel the blinding of E.
    unblinded :
        (w : ℕ → Scalar) (i : ℕ) (gens : List Point)
        → dot_from (λ t. w t ⊗ pow x dim ⊖ masked dim rho x t) i gens ⊞ blinded_sum i gens
          ≡ dot_from w i gens · pow x dim
    unfolding dot_from
    unblinded w i [] =
        c.identity-padd (blinded_sum i []) ∙ blinded_sum_nil i ∙ sym (identity-smul (pow x dim))
    unblinded w i (gen ∷ gens) =
        ap (λ t. dot_from (λ t. w t ⊗ pow x dim ⊖ masked dim rho x t) i (gen ∷ gens) ⊞ t)
          (blinded_sum_cons i gen gens)
        ∙ unblinded_head gen (w i) (masked dim rho x i) _ _
        ∙ ap (λ t. gen · w i · pow x dim ⊞ t) (unblinded w (suc i) gens)
        ∙ sym (c.smul-padd (gen · w i) (dot_from w (suc i) gens) (pow x dim))

  module _ (dim index : ℕ) (n : Nonces) (x : Scalar) (f : ℕ → Scalar) (d_set : List Point) where
    abbrev pub d : ℕ → Point
    d j = get_or d_set j c.identity

    -- The coefficients of p_j below x^M, at x.
    abbrev low : ℕ → Scalar
    low j = scalar_sum dim (terms (poly (bit_scalar index) n.a j dim) x)

    abbrev top : ℕ → Scalar
    top j = scalar_prod dim (coeff_x (bit_scalar index) n.a j)

    -- Σ_j D_j·(Σ_k coeff(p_j, x^k)·x^k), k below M
    abbrev low_sum : Point
    low_sum = for_sum (2 ^ dim) c.identity (λ j. d j · low j)

    module _ (honest : (k : ℕ) → k < dim → f k ≡ honest_f index n x k) where
      evaluate-split : (j : ℕ) → evaluate dim x f j ≡ low j ⊕ top j ⊗ pow x dim
      unfolding evaluate
      evaluate-split j =
          scalar_prod_congr dim (λ k. if bit j k then f k else x ⊖ f k)
            (λ k. coeff_0 (bit_scalar index) n.a j k ⊕ coeff_x (bit_scalar index) n.a j k ⊗ x)
            (λ k l.
              ap (λ t. if bit j k then t else x ⊖ t) (honest k l) ∙ sym (factor_eq n.a index j k x))
          ∙ poly_evaluates (bit_scalar index) n.a j dim x

      -- Of the terms in x^M only that of the prover's index is left.
      top_sum :
          index < 2 ^ dim
          → for_sum (2 ^ dim) c.identity (λ j. d j · (top j ⊗ pow x dim)) ≡ d index · pow x dim
      top_sum hi =
          for_sum_single (2 ^ dim) index (λ j. d j · (top j ⊗ pow x dim)) hi
            (λ k l ne.
              ap (λ t. d k · (t ⊗ pow x dim)) (top_differs n.a index k dim hi l (λ e. ne (sym e)))
              ∙ ap (λ t. d k · t) (zero-mul (pow x dim))
              ∙ smul-zero (d k))
          ∙ ap (λ t. d index · (t ⊗ pow x dim)) (top_same n.a index index dim refl)
          ∙ ap (λ t. d index · t) (c.one-mul (pow x dim))

      membership_lhs-split :
          index < 2 ^ dim → membership_lhs dim x f d_set ≡ low_sum ⊞ d index · pow x dim
      unfolding membership_lhs
      membership_lhs-split hi =
          for_sum_congr (2 ^ dim) c.identity (λ j. d j · evaluate dim x f j)
            (λ j. d j · low j ⊞ d j · (top j ⊗ pow x dim))
            (λ j l. ap (λ t. d j · t) (evaluate-split j) ∙ c.smul-add (d j) (low j) _)
          ∙ for_sum_split (2 ^ dim) (λ j. d j · low j) (λ j. d j · (top j ⊗ pow x dim))
          ∙ ap (λ t. low_sum ⊞ t) (top_sum hi)

    low_term :
        (j : ℕ)
        → for_sum dim c.identity (λ k. d j · poly (bit_scalar index) n.a j dim k · pow x k)
          ≡ d j · low j
    low_term j =
        for_sum_congr dim c.identity _ (λ k. d j · terms (poly (bit_scalar index) n.a j dim) x k)
          (λ k l. sym (c.smul-mul (d j) (poly (bit_scalar index) n.a j dim k) (pow x k)))
        ∙ sym (smul-scalar_sum dim (d j) (terms (poly (bit_scalar index) n.a j dim) x))

    cap_e_term :
        (gens : List Point) (k : ℕ)
        → cap_e dim index n gens d_set k · pow x k
          ≡ blind n.rho k 0 c.identity gens · pow x k
            ⊞ for_sum
                (2 ^ dim)
                c.identity
                (λ j. d j · poly (bit_scalar index) n.a j dim k · pow x k)
    unfolding cap_e
    cap_e_term gens k =
        ap (λ t. t · pow x k)
          (for_sum_acc (2 ^ dim) (blind n.rho k 0 c.identity gens)
            (λ j. d j · poly (bit_scalar index) n.a j dim k))
        ∙ c.smul-padd (blind n.rho k 0 c.identity gens) _ (pow x k)
        ∙ ap (λ t. blind n.rho k 0 c.identity gens · pow x k ⊞ t)
            (sym
              (for_sum_times (2 ^ dim) (λ j. d j · poly (bit_scalar index) n.a j dim k) (pow x k)))

    -- Σ_k E[k]·x^k
    cap_e_sum :
        (gens : List Point)
        → for_sum dim c.identity (λ k. cap_e dim index n gens d_set k · pow x k)
          ≡ blinded_sum dim n.rho x 0 gens ⊞ low_sum
    unfolding blinded_sum
    cap_e_sum gens =
        for_sum_congr dim c.identity _ _ (λ k l. cap_e_term gens k)
        ∙ for_sum_split dim (λ k. blind n.rho k 0 c.identity gens · pow x k) _
        ∙ ap (λ t. for_sum dim c.identity (λ k. blind n.rho k 0 c.identity gens · pow x k) ⊞ t)
            (for_sum_comm dim (2 ^ dim) (λ k j. d j · poly (bit_scalar index) n.a j dim k · pow x k)
              ∙ for_sum_congr (2 ^ dim) c.identity _ (λ j. d j · low j) (λ j l. low_term j))

    -- Check 3, in the generators of the statement.
    pub membership-honest :
        ((k : ℕ) → k < dim → f k ≡ honest_f index n x k)
        → index < 2 ^ dim
        → (w : ℕ → Scalar) (gens : List Point) → d index ≡ dot_from w 0 gens
        → membership_lhs dim x f d_set
          ≡ dot_from (λ t. w t ⊗ pow x dim ⊖ masked dim n.rho x t) 0 gens
            ⊞ for_sum dim c.identity (λ k. cap_e dim index n gens d_set k · pow x k)
    membership-honest honest hi w gens opens =
        membership_lhs-split honest hi
        ∙ c.padd_comm low_sum (d index · pow x dim)
        ∙ ap (λ t. t · pow x dim ⊞ low_sum) opens
        ∙ ap (λ t. t ⊞ low_sum) (sym (unblinded dim n.rho x w 0 gens))
        ∙ c.padd_assoc _ (blinded_sum dim n.rho x 0 gens) low_sum
        ∙ ap (λ t. dot_from (λ t. w t ⊗ pow x dim ⊖ masked dim n.rho x t) 0 gens ⊞ t)
            (sym (cap_e_sum gens))
