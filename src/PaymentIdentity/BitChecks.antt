-- ===== src/PaymentIdentity/BitChecks.antt =====
-- Checks 1 and 2 of the verifier of core/payment_identity.rs on the commitments A, B, C and D of
-- the prover.
use veiled.Prelude.{ℕ, ◌<◌, ◌≡◌, true, sym, ap, ◌∙◌, ◌≡⟨◌⟩◌, ◌∎, inl, inr, Bool-cases}
use veiled.Crypto.{Crypto, Scalar, Point, ◌⊕◌, ◌⊖◌, ◌⊗◌, ◌⊞◌, ◌·◌}
use veiled.Crypto.Laws.{
  add-mul, mul-one, mul-zero, zero-mul, mul-neg, neg-mul, neg-add, sub-zero, padd_right_cancel,
}
use veiled.Crypto.Loops.{
  for_sum, for_sub, for_sum_acc, for_sub_acc, for_sum_congr, for_sum-padd, for_sum-smul,
}
use veiled.Utils.{bit_generator}
use veiled.PaymentIdentity.Poly.{bit}
use veiled.PaymentIdentity.Prove.{Nonces, bit_scalar, cap_a, cap_b, cap_c, cap_d}
use veiled.PaymentIdentity.Verify.{check_consistency, check_bitness}

module _ ⦃c : Crypto⦄ (dim : ℕ) (g : Point) (x : Scalar) where
  -- A commitment to the values a, by r on g.
  abbrev opening : Scalar → (ℕ → Scalar) → Point
  opening r a = for_sum dim (g · r) (λ k. bit_generator k · a k)

  opening-combine :
      (ra rb : Scalar) (a b f : ℕ → Scalar)
      → ((k : ℕ) → k < dim → a k ⊕ b k ⊗ x ≡ f k)
      → opening ra a ⊞ opening rb b · x ≡ opening (ra ⊕ rb ⊗ x) f
  opening-combine ra rb a b f h =
      opening ra a ⊞ opening rb b · x
      ≡⟨ ap (λ t. opening ra a ⊞ t)
          (sym (for_sum-smul dim (g · rb) (λ k. bit_generator k · b k) x)) ⟩
        opening ra a ⊞ for_sum dim (g · rb · x) (λ k. bit_generator k · b k · x)
      ≡⟨ sym (
          for_sum-padd dim (g · ra) (g · rb · x) (λ k. bit_generator k · a k)
            (λ k. bit_generator k · b k · x)) ⟩
        for_sum dim (g · ra ⊞ g · rb · x) (λ k. bit_generator k · a k ⊞ bit_generator k · b k · x)
      ≡⟨ ap (λ t. for_sum dim t (λ k. bit_generator k · a k ⊞ bit_generator k · b k · x))
          (joined g ra rb) ⟩
        for_sum dim (g · (ra ⊕ rb ⊗ x)) (λ k. bit_generator k · a k ⊞ bit_generator k · b k · x)
      ≡⟨ for_sum_congr dim (g · (ra ⊕ rb ⊗ x)) _ (λ k. bit_generator k · f k)
          (λ k l. joined (bit_generator k) (a k) (b k) ∙ ap (λ t. bit_generator k · t) (h k l)) ⟩
        opening (ra ⊕ rb ⊗ x) f ∎
    where
      joined : (p : Point) (s t : Scalar) → p · s ⊞ p · t · x ≡ p · (s ⊕ t ⊗ x)
      joined p s t = sym (c.smul-add p s (t ⊗ x) ∙ ap (λ q. p · s ⊞ q) (c.smul-mul p t x))

  -- What the verifier subtracts leaves the blinding alone.
  balanced :
      (ra rb : Scalar) (a b f : ℕ → Scalar)
      → ((k : ℕ) → k < dim → a k ⊕ b k ⊗ x ≡ f k)
      → g · (ra ⊕ rb ⊗ x)
        ≡ for_sub dim (opening ra a ⊞ opening rb b · x) (λ k. bit_generator k · f k)
  balanced ra rb a b f h =
      padd_right_cancel (g · (ra ⊕ rb ⊗ x)) _ (for_sum dim c.identity (λ k. bit_generator k · f k))
        (sym (for_sum_acc dim (g · (ra ⊕ rb ⊗ x)) (λ k. bit_generator k · f k))
          ∙ sym (opening-combine ra rb a b f h)
          ∙ sym (for_sub_acc dim (opening ra a ⊞ opening rb b · x) (λ k. bit_generator k · f k)))

module _ ⦃c : Crypto⦄ where
  -- For a bit b: -a² + a(1 - 2b)x = f(x - f) with f = bx + a.
  clear_bit :
      (a x : Scalar)
      → c.neg a ⊗ a ⊕ (a ⊗ (c.one ⊖ (c.one ⊕ c.one) ⊗ c.zero)) ⊗ x
        ≡ (c.zero ⊗ x ⊕ a) ⊗ (x ⊖ (c.zero ⊗ x ⊕ a))
  clear_bit a x =
      rw
        (
          mul-zero (c.one ⊕ c.one),
          sub-zero c.one,
          mul-one a,
          zero-mul x,
          c.zero-add a,
          c.mul-add a x (c.neg a),
          neg-mul a a,
          mul-neg a a,
        )
        (c.add_comm (c.neg (a ⊗ a)) (a ⊗ x))

  sub-add_self : (x a : Scalar) → x ⊖ (x ⊕ a) ≡ c.neg a
  sub-add_self x a =
      x ⊖ (x ⊕ a)
      ≡⟨ ap (λ t. x ⊕ t) (neg-add x a) ⟩ x ⊕ (c.neg x ⊕ c.neg a)
      ≡⟨ sym (c.add_assoc x (c.neg x) (c.neg a)) ⟩ (x ⊖ x) ⊖ a
      ≡⟨ ap (λ t. t ⊖ a) (c.add-neg x) ⟩ c.zero ⊖ a
      ≡⟨ c.zero-add (c.neg a) ⟩ c.neg a ∎

  minus_one : c.one ⊖ (c.one ⊕ c.one) ⊗ c.one ≡ c.neg c.one
  minus_one = ap (λ t. c.one ⊖ t) (mul-one (c.one ⊕ c.one)) ∙ sub-add_self c.one c.one

  set_bit :
      (a x : Scalar)
      → c.neg a ⊗ a ⊕ (a ⊗ (c.one ⊖ (c.one ⊕ c.one) ⊗ c.one)) ⊗ x
        ≡ (c.one ⊗ x ⊕ a) ⊗ (x ⊖ (c.one ⊗ x ⊕ a))
  set_bit a x =
      rw
        (
          minus_one,
          mul-neg a c.one,
          mul-one a,
          c.one-mul x,
          sub-add_self x a,
          add-mul x a (c.neg a),
          neg-mul a a,
          neg-mul a x,
          mul-neg x a,
          mul-neg a a,
          c.mul_comm x a,
        )
        (c.add_comm (c.neg (a ⊗ a)) (c.neg (a ⊗ x)))

  bitness :
      (index k : ℕ) (a x : Scalar)
      → c.neg a ⊗ a ⊕ (a ⊗ (c.one ⊖ (c.one ⊕ c.one) ⊗ bit_scalar index k)) ⊗ x
        ≡ (bit_scalar index k ⊗ x ⊕ a) ⊗ (x ⊖ (bit_scalar index k ⊗ x ⊕ a))
  bitness index k a x = elim (Bool-cases (bit index k)) [
    | inl set ↦ rw set (set_bit a x)
    | inr clear ↦ rw clear (clear_bit a x)
  ]

-- f[k] = bits[k]·x + a[k]
abbrev pub honest_f : ⦃c : Crypto⦄ → ℕ → Nonces → Scalar → ℕ → Scalar
honest_f index n x k = bit_scalar index k ⊗ x ⊕ n.a k

module _ ⦃c : Crypto⦄ (dim : ℕ) (g : Point) (index : ℕ) (n : Nonces) (x : Scalar) where
  pub check_consistency-honest :
      (f : ℕ → Scalar)
      → ((k : ℕ) → k < dim → f k ≡ honest_f index n x k)
      → check_consistency dim g (cap_a dim g index n) (cap_b dim g index n) x (n.r_a ⊕ n.r_b ⊗ x) f
        ≡ true
  unfolding check_consistency cap_a cap_b
  check_consistency-honest f h = (c.point_eq_iff _ _).1 (
      balanced dim g x n.r_a n.r_b n.a (bit_scalar index) f
        (λ k l. c.add_comm (n.a k) (bit_scalar index k ⊗ x) ∙ sym (h k l)))

  pub check_bitness-honest :
      (f : ℕ → Scalar)
      → ((k : ℕ) → k < dim → f k ≡ honest_f index n x k)
      → check_bitness dim g (cap_c dim g index n) (cap_d dim g index n) x (n.r_c ⊗ x ⊕ n.r_d) f
        ≡ true
  unfolding check_bitness cap_c cap_d
  check_bitness-honest f h = (c.point_eq_iff _ _).1 (
      rw (c.add_comm (n.r_c ⊗ x) n.r_d, c.padd_comm (cap_c dim g index n · x) (cap_d dim g index n))
        (balanced dim g x n.r_d n.r_c (λ k. c.neg (n.a k) ⊗ n.a k)
          (λ k. n.a k ⊗ (c.one ⊖ (c.one ⊕ c.one) ⊗ bit_scalar index k)) (λ k. f k ⊗ (x ⊖ f k))
          (λ k l. bitness index k (n.a k) x ∙ ap (λ t. t ⊗ (x ⊖ t)) (sym (h k l)))))
