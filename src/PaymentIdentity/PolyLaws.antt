-- ===== src/PaymentIdentity/PolyLaws.antt =====
-- The polynomials p_j of core/payment_identity.rs: the loop of the prover against the product of
-- the verifier.
use veiled.Prelude.{
  ℕ, zero, suc, ◌/◌, ◌%◌, ◌^◌, ◌<◌, ◌≡◌, ◌≢◌, refl, sym, ap, ◌∙◌, ◌≡⟨◌⟩◌, ◌∎, ◌⊎◌, inl, inr, arith,
  ◌==◌, if◌then◌else◌, Bool-cases, ℕ_discrete,
}
use native.Mathlib.Nat.{pow-suc, pow-succ', div-div-eq-div-mul}
use veiled.Crypto.{Crypto, Scalar, ◌⊕◌, ◌⊖◌, ◌⊗◌}
use veiled.Crypto.Laws.{add-zero, add-mul, zero-mul, mul_interchange, sub-zero, neg-add, neg-mul}
use veiled.Crypto.Loops.{
  scalar_sum, scalar_prod, scalar_sum_congr, scalar_prod_congr, scalar_prod-zero, scalar_prod-one,
}
use veiled.PaymentIdentity.Poly.{bit, pow, step, mul_linear, coeff_x, coeff_0, poly}
use veiled.PaymentIdentity.Prove.{bit_scalar}

module _ ⦃c : Crypto⦄ where
  -- The coefficients of p_j, weighted by the powers of x.
  abbrev pub terms : (ℕ → Scalar) → Scalar → ℕ → Scalar
  terms p x i = p i ⊗ pow x i

  step_below : (cx c0 : Scalar) (i t : ℕ) (p : ℕ → Scalar) → t < i → step cx c0 i p t ≡ p t
  unfolding step
  step_below cx c0 i t p h = ground arith

  step_at : (cx c0 : Scalar) (i : ℕ) (p : ℕ → Scalar) → step cx c0 i p i ≡ p i ⊗ c0
  unfolding step
  step_at cx c0 i p = ground arith

  step_next :
      (cx c0 : Scalar) (i : ℕ) (p : ℕ → Scalar) → step cx c0 i p (suc i) ≡ p (suc i) ⊕ p i ⊗ cx
  unfolding step
  step_next cx c0 i p = ground arith

  step_above : (cx c0 : Scalar) (i t : ℕ) (p : ℕ → Scalar) → suc i < t → step cx c0 i p t ≡ p t
  unfolding step
  step_above cx c0 i t p h = ground arith

  mul_linear_above :
      (n t : ℕ) (cx c0 : Scalar) (p : ℕ → Scalar) → n < t → mul_linear n cx c0 p t ≡ p t
  unfolding mul_linear
  mul_linear_above zero t cx c0 p h = refl
  mul_linear_above (suc n) t cx c0 p h =
      mul_linear_above n t cx c0 (step cx c0 n p) (omega arith) ∙ step_above cx c0 n t p h

  mul_linear_top :
      (k : ℕ) (cx c0 : Scalar) (p : ℕ → Scalar)
      → mul_linear (suc k) cx c0 p (suc k) ≡ p (suc k) ⊕ p k ⊗ cx
  unfolding mul_linear
  mul_linear_top k cx c0 p =
      mul_linear_above k (suc k) cx c0 (step cx c0 k p) (omega arith) ∙ step_next cx c0 k p

  linear_term :
      (b d cx c0 x : Scalar) → (b ⊗ d) ⊗ (c0 ⊕ cx ⊗ x) ≡ ((b ⊗ c0) ⊗ d) ⊕ ((b ⊗ cx) ⊗ (d ⊗ x))
  linear_term b d cx c0 x =
      c.mul-add (b ⊗ d) c0 (cx ⊗ x)
      ∙ rw (mul_interchange b d cx x, c.mul_assoc b d c0, c.mul_comm d c0, ← c.mul_assoc b c0 d)

  -- -a + (1 - b)·x = x - (b·x + a)
  flipped : (b a x : Scalar) → c.neg a ⊕ (c.one ⊖ b) ⊗ x ≡ x ⊖ (b ⊗ x ⊕ a)
  flipped b a x =
      c.add_comm (c.neg a) ((c.one ⊖ b) ⊗ x)
      ∙ rw (add-mul c.one (c.neg b) x, c.one-mul x, neg-mul b x)
          (c.add_assoc x (c.neg (b ⊗ x)) (c.neg a) ∙ ap (λ t. x ⊕ t) (sym (neg-add (b ⊗ x) a)))

  regroup : (s a b d : Scalar) → (s ⊕ a) ⊕ (d ⊕ b) ≡ (s ⊕ (a ⊕ b)) ⊕ d
  regroup s a b d =
      ap (λ t. (s ⊕ a) ⊕ t) (c.add_comm d b)
      ∙ sym (c.add_assoc (s ⊕ a) b d)
      ∙ ap (λ t. t ⊕ d) (c.add_assoc s a b)

  sum_times_linear :
      (s b cx c0 x r : Scalar) (n : ℕ)
      → ((s ⊗ (c0 ⊕ cx ⊗ x)) ⊕ (((b ⊗ c0) ⊗ pow x n) ⊕ ((b ⊗ cx) ⊗ pow x (suc n)))) ⊕ r
        ≡ ((s ⊕ (b ⊗ pow x n)) ⊗ (c0 ⊕ cx ⊗ x)) ⊕ r
  unfolding pow
  sum_times_linear s b cx c0 x r n =
      rw (add-mul s (b ⊗ pow x n) (c0 ⊕ cx ⊗ x), linear_term b (pow x n) cx c0 x)

  -- n rounds of the inner loop multiply the first n coefficients by c0 + cx·X.
  pub mul_linear_sum :
      (n : ℕ) (cx c0 x : Scalar) (p : ℕ → Scalar)
      → scalar_sum (suc n) (terms (mul_linear n cx c0 p) x)
        ≡ (scalar_sum n (terms p x) ⊗ (c0 ⊕ cx ⊗ x)) ⊕ terms p x n
  unfolding mul_linear scalar_sum
  mul_linear_sum zero cx c0 x p = rw zero-mul
  mul_linear_sum (suc n) cx c0 x p =
      let q = step cx c0 n p in
      let s = scalar_sum n (terms p x) in
      let l = c0 ⊕ cx ⊗ x in
      scalar_sum (suc n) (terms (mul_linear n cx c0 q) x) ⊕ terms (mul_linear n cx c0 q) x (suc n)
      ≡⟨ (rw (mul_linear_sum n cx c0 x q, mul_linear_above n (suc n) cx c0 q (omega arith))) ⟩
        ((scalar_sum n (terms q x) ⊗ l) ⊕ (q n ⊗ pow x n)) ⊕ (q (suc n) ⊗ pow x (suc n))
      ≡⟨ (rw (
        scalar_sum_congr n (terms q x) (terms p x)
            (λ k h. ap (λ t. t ⊗ pow x k) (step_below cx c0 n k p h)),
        step_at cx c0 n p,
        step_next cx c0 n p,
        add-mul (p (suc n)) (p n ⊗ cx) (pow x (suc n)),
      )) ⟩
        ((s ⊗ l) ⊕ ((p n ⊗ c0) ⊗ pow x n))
        ⊕ ((p (suc n) ⊗ pow x (suc n)) ⊕ ((p n ⊗ cx) ⊗ pow x (suc n)))
      ≡⟨ regroup (s ⊗ l) ((p n ⊗ c0) ⊗ pow x n) ((p n ⊗ cx) ⊗ pow x (suc n)) _ ⟩
        ((s ⊗ l) ⊕ (((p n ⊗ c0) ⊗ pow x n) ⊕ ((p n ⊗ cx) ⊗ pow x (suc n))))
        ⊕ (p (suc n) ⊗ pow x (suc n))
      ≡⟨ sum_times_linear s (p n) cx c0 x (p (suc n) ⊗ pow x (suc n)) n ⟩
        ((s ⊕ (p n ⊗ pow x n)) ⊗ l) ⊕ (p (suc n) ⊗ pow x (suc n)) ∎

  module _ (bits a : ℕ → Scalar) (j : ℕ) where
    poly_above : (k t : ℕ) → k < t → poly bits a j k t ≡ c.zero
    unfolding poly
    poly_above zero t h = ground arith
    poly_above (suc k) t h =
        mul_linear_above (suc k) t (coeff_x bits a j k) (coeff_0 bits a j k) (poly bits a j k) h
        ∙ poly_above k t (omega arith)

    -- The coefficients of p_j, summed with the powers of x, give the product of the factors at x.
    poly_sum :
        (k : ℕ) (x : Scalar)
        → scalar_sum (suc k) (terms (poly bits a j k) x)
          ≡ scalar_prod k (λ t. coeff_0 bits a j t ⊕ coeff_x bits a j t ⊗ x)
    unfolding poly scalar_prod
    poly_sum zero x = unfold scalar_sum pow in c.zero-add _ ∙ c.one-mul c.one
    poly_sum (suc k) x =
        mul_linear_sum (suc k) (coeff_x bits a j k) (coeff_0 bits a j k) x (poly bits a j k)
        ∙ rw (poly_sum k x, poly_above k (suc k) (omega arith), zero-mul (pow x (suc k)))
            (add-zero _)

    poly_top : (k : ℕ) → poly bits a j k k ≡ scalar_prod k (coeff_x bits a j)
    unfolding poly scalar_prod
    poly_top zero = refl
    poly_top (suc k) =
        mul_linear_top k (coeff_x bits a j k) (coeff_0 bits a j k) (poly bits a j k)
        ∙ rw (poly_above k (suc k) (omega arith), poly_top k) (c.zero-add _)

    -- p_j at x: the coefficients below M, and that of x^M.
    pub poly_evaluates :
        (dim : ℕ) (x : Scalar)
        → scalar_prod dim (λ t. coeff_0 bits a j t ⊕ coeff_x bits a j t ⊗ x)
          ≡ scalar_sum dim (terms (poly bits a j dim) x)
            ⊕ scalar_prod dim (coeff_x bits a j) ⊗ pow x dim
    poly_evaluates dim x = sym (poly_sum dim x) ∙ (unfold scalar_sum in rw (poly_top dim))

bit_ne : (i j : ℕ) → i % 2 ≢ j % 2 → bit i 0 ≢ bit j 0
bit_ne i j d e = ground arith

bit-half : (i k : ℕ) → bit (i / 2) k ≡ bit i (suc k)
bit-half i k =
    ap (λ t. t % 2 == 1) {x = i / 2 / 2 ^ k} (rw (pow-succ' 2 k) (div-div-eq-div-mul i 2 (2 ^ k)))

-- Two indices below 2^M are equal or differ in one of M bits.
differ :
    (dim i j : ℕ)
    → i < 2 ^ dim
    → j < 2 ^ dim
    → (i ≡ j) ⊎ ((k : ℕ) × (k < dim) × (bit i k ≢ bit j k))
differ zero i j hi hj = inl (omega arith)
differ (suc dim) i j hi hj = elim (ℕ_discrete (i % 2) (j % 2)) [
  | no d ↦ inr (0, omega arith, bit_ne i j d)
  | yes e ↦
      elim (differ dim (i / 2) (j / 2) (omega (arith, pow-suc 2 dim))
        (omega (arith, pow-suc 2 dim))) [
          | inl same ↦ inl (omega arith)
          | inr (k, l, d) ↦ inr (suc k, omega arith, λ e. d (bit-half i k ∙ e ∙ sym (bit-half j k)))
        ]
]

module _ ⦃c : Crypto⦄ (a : ℕ → Scalar) (index j : ℕ) where
  coeff_x_same : (k : ℕ) → bit index k ≡ bit j k → coeff_x (bit_scalar index) a j k ≡ c.one
  unfolding coeff_x
  coeff_x_same k e = elim (Bool-cases (bit j k)) [
    | inl set ↦ rw (set, e ∙ set)
    | inr clear ↦ rw (clear, e ∙ clear) (sub-zero c.one)
  ]

  coeff_x_differs : (k : ℕ) → bit index k ≢ bit j k → coeff_x (bit_scalar index) a j k ≡ c.zero
  unfolding coeff_x
  coeff_x_differs k d = ground (arith, c.add-neg c.one)

  -- The coefficient of x^M in p_j is 1 at the prover's index and 0 elsewhere.
  pub top_same : (dim : ℕ) → index ≡ j → scalar_prod dim (coeff_x (bit_scalar index) a j) ≡ c.one
  top_same dim e =
      scalar_prod_congr dim (coeff_x (bit_scalar index) a j) (λ k. c.one)
        (λ k h. coeff_x_same k (ap (λ t. bit t k) e))
      ∙ scalar_prod-one dim

  pub top_differs :
      (dim : ℕ)
      → index < 2 ^ dim
      → j < 2 ^ dim
      → index ≢ j
      → scalar_prod dim (coeff_x (bit_scalar index) a j) ≡ c.zero
  top_differs dim hi hj d = elim (differ dim index j hi hj) [
    | inl same ↦ absurd (d same)
    | inr (k, l, e) ↦
        scalar_prod-zero dim k (coeff_x (bit_scalar index) a j) l (coeff_x_differs k e)
  ]

  -- The factor of bit k is the verifier's, for f[k] = bits[k]·x + a[k].
  pub factor_eq :
      (k : ℕ) (x : Scalar)
      → coeff_0 (bit_scalar index) a j k ⊕ coeff_x (bit_scalar index) a j k ⊗ x
        ≡ (if bit j k then bit_scalar index k ⊗ x ⊕ a k else x ⊖ (bit_scalar index k ⊗ x ⊕ a k))
  unfolding coeff_0 coeff_x
  factor_eq k x = elim (Bool-cases (bit j k)) [
    | inl set ↦ rw set (c.add_comm (a k) _)
    | inr clear ↦ rw clear (flipped (bit_scalar index k) (a k) x)
  ]
