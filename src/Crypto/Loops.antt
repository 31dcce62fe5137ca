-- ===== src/Crypto/Loops.antt =====
-- The loops `for k in 0..n { acc += f(k) }` over points and scalars, and their laws.
use veiled.Prelude.{ℕ, zero, suc, ◌<◌, ◌≢◌, ◌≡◌, refl, sym, ap, ◌∙◌, arith, dec_lt}
use veiled.Crypto.{Crypto, Scalar, Point, ◌⊕◌, ◌⊗◌, ◌⊞◌, ◌⊟◌, ◌·◌}
use veiled.Crypto.Laws.{mul-zero, padd-identity, padd_interchange, smul-zero, identity-smul}

module _ ⦃c : Crypto⦄ where
  -- for k in 0..n { acc += f(k) }
  unfoldable pub for_sum : ℕ → Point → (ℕ → Point) → Point
  for_sum zero acc f = acc
  for_sum (suc n) acc f = for_sum n acc f ⊞ f n

  -- for k in 0..n { acc -= f(k) }
  unfoldable pub for_sub : ℕ → Point → (ℕ → Point) → Point
  for_sub zero acc f = acc
  for_sub (suc n) acc f = for_sub n acc f ⊟ f n

  -- for k in 0..n { acc += f(k) }, over scalars
  unfoldable pub scalar_sum : ℕ → (ℕ → Scalar) → Scalar
  scalar_sum zero f = c.zero
  scalar_sum (suc n) f = scalar_sum n f ⊕ f n

  -- for k in 0..n { acc *= f(k) }
  unfoldable pub scalar_prod : ℕ → (ℕ → Scalar) → Scalar
  scalar_prod zero f = c.one
  scalar_prod (suc n) f = scalar_prod n f ⊗ f n

  pub for_sum_acc : (n : ℕ) (p : Point) (f : ℕ → Point) → for_sum n p f ≡ p ⊞ for_sum n c.identity f
  unfolding for_sum
  for_sum_acc zero p f = sym (padd-identity p)
  for_sum_acc (suc n) p f = rw (for_sum_acc n p f) (c.padd_assoc _ _ _)

  pub for_sub_acc : (n : ℕ) (p : Point) (f : ℕ → Point) → for_sub n p f ⊞ for_sum n c.identity f ≡ p
  unfolding for_sum for_sub
  for_sub_acc zero p f = padd-identity p
  for_sub_acc (suc n) p f =
      padd_interchange (for_sub n p f) (c.pneg (f n)) (for_sum n c.identity f) (f n)
      ∙ rw (for_sub_acc n p f, c.padd_comm (c.pneg (f n)) (f n), c.padd-pneg (f n))
          (padd-identity p)

  pub for_sum_congr :
      (n : ℕ) (p : Point) (f g : ℕ → Point)
      → ((k : ℕ) → k < n → f k ≡ g k)
      → for_sum n p f ≡ for_sum n p g
  unfolding for_sum
  for_sum_congr zero p f g h = refl
  for_sum_congr (suc n) p f g h =
      rw (for_sum_congr n p f g (λ k l. h k (omega arith)), h n (omega arith))

  pub for_sum-padd :
      (n : ℕ) (p q : Point) (f g : ℕ → Point)
      → for_sum n (p ⊞ q) (λ k. f k ⊞ g k) ≡ for_sum n p f ⊞ for_sum n q g
  unfolding for_sum
  for_sum-padd zero p q f g = refl
  for_sum-padd (suc n) p q f g = rw (for_sum-padd n p q f g) (padd_interchange _ _ (f n) (g n))

  pub for_sum_split :
      (n : ℕ) (f g : ℕ → Point)
      → for_sum n c.identity (λ k. f k ⊞ g k) ≡ for_sum n c.identity f ⊞ for_sum n c.identity g
  for_sum_split n f g =
      ap (λ t. for_sum n t (λ k. f k ⊞ g k)) (sym (c.identity-padd c.identity))
      ∙ for_sum-padd n c.identity c.identity f g

  pub for_sum-smul :
      (n : ℕ) (p : Point) (f : ℕ → Point) (a : Scalar)
      → for_sum n (p · a) (λ k. f k · a) ≡ for_sum n p f · a
  unfolding for_sum
  for_sum-smul zero p f a = refl
  for_sum-smul (suc n) p f a = rw (for_sum-smul n p f a) (sym (c.smul-padd _ (f n) a))

  pub for_sum_times :
      (n : ℕ) (f : ℕ → Point) (a : Scalar)
      → for_sum n c.identity (λ k. f k · a) ≡ for_sum n c.identity f · a
  for_sum_times n f a =
      ap (λ t. for_sum n t (λ k. f k · a)) (sym (identity-smul a)) ∙ for_sum-smul n c.identity f a

  pub smul-scalar_sum :
      (n : ℕ) (p : Point) (f : ℕ → Scalar)
      → p · scalar_sum n f ≡ for_sum n c.identity (λ k. p · f k)
  unfolding for_sum scalar_sum
  smul-scalar_sum zero p f = smul-zero p
  smul-scalar_sum (suc n) p f = rw (← smul-scalar_sum n p f) (c.smul-add p _ (f n))

  pub for_sum-identity : (n : ℕ) → for_sum n c.identity (λ k. c.identity) ≡ c.identity
  unfolding for_sum
  for_sum-identity zero = refl
  for_sum-identity (suc n) = rw (for_sum-identity n) (padd-identity _)

  pub scalar_sum_congr :
      (n : ℕ) (f g : ℕ → Scalar) → ((k : ℕ) → k < n → f k ≡ g k) → scalar_sum n f ≡ scalar_sum n g
  unfolding scalar_sum
  scalar_sum_congr zero f g h = refl
  scalar_sum_congr (suc n) f g h =
      rw (scalar_sum_congr n f g (λ k l. h k (omega arith)), h n (omega arith))

  pub scalar_prod_congr :
      (n : ℕ) (f g : ℕ → Scalar) → ((k : ℕ) → k < n → f k ≡ g k) → scalar_prod n f ≡ scalar_prod n g
  unfolding scalar_prod
  scalar_prod_congr zero f g h = refl
  scalar_prod_congr (suc n) f g h =
      rw (scalar_prod_congr n f g (λ k l. h k (omega arith)), h n (omega arith))

  -- A factor that is zero makes the product zero.
  pub scalar_prod-zero :
      (n k : ℕ) (f : ℕ → Scalar) → k < n → f k ≡ c.zero → scalar_prod n f ≡ c.zero
  unfolding scalar_prod
  scalar_prod-zero zero k f l h = elim l [ ]
  scalar_prod-zero (suc n) k f l h = elim (dec_lt k n) [
    | yes p ↦ rw (scalar_prod-zero n k f p h) (c.mul_comm _ _ ∙ mul-zero _)
    | no p ↦ let e : n ≡ k = omega arith in rw (e, h) (mul-zero _)
  ]

  pub scalar_prod-one : (n : ℕ) → scalar_prod n (λ k. c.one) ≡ c.one
  unfolding scalar_prod
  scalar_prod-one zero = refl
  scalar_prod-one (suc n) = rw (scalar_prod-one n) (c.one-mul _)

  -- Only the term at i is not the identity.
  pub for_sum_single :
      (n i : ℕ) (f : ℕ → Point)
      → i < n
      → ((k : ℕ) → k < n → k ≢ i → f k ≡ c.identity)
      → for_sum n c.identity f ≡ f i
  unfolding for_sum
  for_sum_single zero i f l h = elim l [ ]
  for_sum_single (suc n) i f l h = elim (dec_lt i n) [
    | yes p ↦
        rw (for_sum_single n i f p (λ k q d. h k (omega arith) d), h n (omega arith) (omega arith))
          (padd-identity _)
    | no p ↦
        let e : n ≡ i = omega arith in
        rw
          (
            for_sum_congr n c.identity f (λ k. c.identity) (λ k q. h k (omega arith) (omega arith)),
            for_sum-identity n,
            e,
          )
          (c.identity-padd _)
  ]

  pub for_sum_comm :
      (m n : ℕ) (f : ℕ → ℕ → Point)
      → for_sum m c.identity (λ i. for_sum n c.identity (λ j. f i j))
        ≡ for_sum n c.identity (λ j. for_sum m c.identity (λ i. f i j))
  unfolding for_sum
  for_sum_comm zero n f = sym (for_sum-identity n)
  for_sum_comm (suc m) n f =
      rw (for_sum_comm m n f)
        (sym (for_sum_split n (λ j. for_sum m c.identity (λ i. f i j)) (λ j. f m j)))
