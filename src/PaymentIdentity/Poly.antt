-- ===== src/PaymentIdentity/Poly.antt =====
-- The polynomials p_j of the prover, as arrays of coefficients, and the bits of an index.
use veiled.Prelude.{ℕ, zero, suc, ◌/◌, ◌%◌, ◌^◌, Bool, ◌==◌, if◌then◌else◌}
use veiled.Crypto.{Crypto, Scalar, ◌⊕◌, ◌⊖◌, ◌⊗◌}

-- `(index >> k) & 1 == 1`
abbrev pub bit : ℕ → ℕ → Bool
bit index k = index / 2 ^ k % 2 == 1

-- `array[i] = v`
abbrev pub update {ℓ} : {A : Type ℓ} → (ℕ → A) → ℕ → A → ℕ → A
update p i v t = if t == i then v else p t

module _ ⦃c : Crypto⦄ where
  -- The powers `x_powers`.
  unfoldable pub pow : Scalar → ℕ → Scalar
  pow x zero = c.one
  pow x (suc i) = pow x i ⊗ x

  -- One round of the inner loop: poly[i + 1] += poly[i] * coeff_x; poly[i] *= coeff_0.
  unfoldable pub step : Scalar → Scalar → ℕ → (ℕ → Scalar) → ℕ → Scalar
  step coeff_x coeff_0 i poly =
      let grown = update poly (suc i) (poly (suc i) ⊕ poly i ⊗ coeff_x) in
      update grown i (grown i ⊗ coeff_0)

  -- `for i in (0..n).rev()`
  unfoldable pub mul_linear : ℕ → Scalar → Scalar → (ℕ → Scalar) → ℕ → Scalar
  mul_linear zero coeff_x coeff_0 poly = poly
  mul_linear (suc i) coeff_x coeff_0 poly =
      mul_linear i coeff_x coeff_0 (step coeff_x coeff_0 i poly)

  module _ (bits a : ℕ → Scalar) (j : ℕ) where
    unfoldable pub coeff_x : ℕ → Scalar
    coeff_x k = if bit j k then bits k else c.one ⊖ bits k

    unfoldable pub coeff_0 : ℕ → Scalar
    coeff_0 k = if bit j k then a k else c.neg (a k)

    -- The array `poly` of p_j after k rounds of the outer loop.
    unfoldable pub poly : ℕ → ℕ → Scalar
    poly zero = update (λ t. c.zero) 0 c.one
    poly (suc k) = mul_linear (suc k) (coeff_x k) (coeff_0 k) (poly k)
