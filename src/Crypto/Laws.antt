-- ===== src/Crypto/Laws.antt =====
-- Consequences of the laws of the scalar field and of the group.
use veiled.Prelude.{true, ◌≡◌, refl, sym, ap, ◌∙◌, ◌≡⟨◌⟩◌, ◌∎}
use veiled.Crypto.{Crypto, Scalar, Point, ◌⊕◌, ◌⊖◌, ◌⊗◌, ◌⊞◌, ◌⊟◌, ◌·◌}

module _ ⦃c : Crypto⦄ where
  pub add-zero : (a : Scalar) → a ⊕ c.zero ≡ a
  add-zero a = c.add_comm a c.zero ∙ c.zero-add a

  pub add_interchange : (a b d e : Scalar) → (a ⊕ b) ⊕ (d ⊕ e) ≡ (a ⊕ d) ⊕ (b ⊕ e)
  add_interchange a b d e =
      (a ⊕ b) ⊕ (d ⊕ e)
      ≡⟨ (simp c.add_assoc) ⟩ a ⊕ ((b ⊕ d) ⊕ e)
      ≡⟨ (rw (c.add_comm b d)) ⟩ a ⊕ ((d ⊕ b) ⊕ e)
      ≡⟨ (simp c.add_assoc) ⟩ (a ⊕ d) ⊕ (b ⊕ e) ∎

  pub mul-one : (a : Scalar) → a ⊗ c.one ≡ a
  mul-one a = c.mul_comm a c.one ∙ c.one-mul a

  pub add-mul : (a b d : Scalar) → (a ⊕ b) ⊗ d ≡ (a ⊗ d) ⊕ (b ⊗ d)
  add-mul a b d = rw (c.mul_comm (a ⊕ b) d, c.mul_comm a d, c.mul_comm b d) (c.mul-add d a b)

  -- What is added on both sides cancels.
  pub add_right_cancel : (a b d : Scalar) → a ⊕ d ≡ b ⊕ d → a ≡ b
  add_right_cancel a b d h =
      a
      ≡⟨ sym (add-zero a) ⟩ a ⊕ c.zero
      ≡⟨ ap (λ t. a ⊕ t) (sym (c.add-neg d)) ⟩ a ⊕ (d ⊖ d)
      ≡⟨ sym (c.add_assoc a d (c.neg d)) ⟩ (a ⊕ d) ⊖ d
      ≡⟨ ap (λ t. t ⊖ d) h ⟩ (b ⊕ d) ⊖ d
      ≡⟨ c.add_assoc b d (c.neg d) ⟩ b ⊕ (d ⊖ d)
      ≡⟨ (rw (c.add-neg d)) ⟩ b ⊕ c.zero
      ≡⟨ add-zero b ⟩ b ∎

  pub mul-zero : (a : Scalar) → a ⊗ c.zero ≡ c.zero
  mul-zero a =
      add_right_cancel (a ⊗ c.zero) c.zero (a ⊗ c.zero)
        (sym (c.mul-add a c.zero c.zero) ∙ ap (λ t. a ⊗ t) (c.zero-add c.zero) ∙ sym (c.zero-add _))

  pub zero-mul : (a : Scalar) → c.zero ⊗ a ≡ c.zero
  zero-mul a = c.mul_comm c.zero a ∙ mul-zero a

  pub mul-neg : (a b : Scalar) → a ⊗ c.neg b ≡ c.neg (a ⊗ b)
  mul-neg a b = add_right_cancel (a ⊗ c.neg b) (c.neg (a ⊗ b)) (a ⊗ b) (
      sym (c.mul-add a (c.neg b) b)
      ∙ ap (λ t. a ⊗ t) (c.add_comm (c.neg b) b ∙ c.add-neg b)
      ∙ mul-zero a
      ∙ sym (c.add_comm (c.neg (a ⊗ b)) (a ⊗ b) ∙ c.add-neg (a ⊗ b)))

  -- a + b - b
  pub add-sub_cancel : (a b : Scalar) → (a ⊕ b) ⊖ b ≡ a
  add-sub_cancel a b = c.add_assoc a b (c.neg b) ∙ ap (λ t. a ⊕ t) (c.add-neg b) ∙ add-zero a

  pub sub-add_cancel : (a b : Scalar) → (a ⊖ b) ⊕ b ≡ a
  sub-add_cancel a b =
      c.add_assoc a (c.neg b) b
      ∙ ap (λ t. a ⊕ t) (c.add_comm (c.neg b) b ∙ c.add-neg b)
      ∙ add-zero a

  pub neg-add : (a b : Scalar) → c.neg (a ⊕ b) ≡ c.neg a ⊕ c.neg b
  neg-add a b = add_right_cancel (c.neg (a ⊕ b)) (c.neg a ⊕ c.neg b) (a ⊕ b) (
      c.add_comm (c.neg (a ⊕ b)) (a ⊕ b)
      ∙ c.add-neg (a ⊕ b)
      ∙ sym (
          add_interchange (c.neg a) (c.neg b) a b
          ∙ rw (c.add_comm (c.neg a) a, c.add_comm (c.neg b) b, c.add-neg a, c.add-neg b)
              (c.zero-add c.zero)))

  pub padd-identity : (p : Point) → p ⊞ c.identity ≡ p
  padd-identity p = c.padd_comm p c.identity ∙ c.identity-padd p

  pub padd_interchange : (p q r s : Point) → (p ⊞ q) ⊞ (r ⊞ s) ≡ (p ⊞ r) ⊞ (q ⊞ s)
  padd_interchange p q r s =
      (p ⊞ q) ⊞ (r ⊞ s)
      ≡⟨ (simp c.padd_assoc) ⟩ p ⊞ ((q ⊞ r) ⊞ s)
      ≡⟨ (rw (c.padd_comm q r)) ⟩ p ⊞ ((r ⊞ q) ⊞ s)
      ≡⟨ (simp c.padd_assoc) ⟩ (p ⊞ r) ⊞ (q ⊞ s) ∎

  pub padd-sub_cancel : (p q : Point) → (p ⊞ q) ⊟ q ≡ p
  padd-sub_cancel p q =
      c.padd_assoc p q (c.pneg q) ∙ ap (λ t. p ⊞ t) (c.padd-pneg q) ∙ padd-identity p

  pub padd_right_cancel : (p q r : Point) → p ⊞ r ≡ q ⊞ r → p ≡ q
  padd_right_cancel p q r h = sym (padd-sub_cancel p r) ∙ ap (λ t. t ⊟ r) h ∙ padd-sub_cancel q r

  pub smul-zero : (p : Point) → p · c.zero ≡ c.identity
  smul-zero p = padd_right_cancel (p · c.zero) c.identity (p · c.zero) (
      sym (c.smul-add p c.zero c.zero)
      ∙ ap (λ t. p · t) (c.zero-add c.zero)
      ∙ sym (c.identity-padd _))

  pub identity-smul : (a : Scalar) → c.identity · a ≡ c.identity
  identity-smul a = padd_right_cancel (c.identity · a) c.identity (c.identity · a) (
      sym (c.smul-padd c.identity c.identity a)
      ∙ ap (λ t. t · a) (c.identity-padd c.identity)
      ∙ sym (c.identity-padd _))

  -- p + q - r is known by what it gives with r added.
  pub sub_eq : (p q r : Point) → p ≡ q ⊞ r → p ⊟ r ≡ q
  sub_eq p q r h = ap (λ t. t ⊟ r) h ∙ padd-sub_cancel q r

  pub point_eq_refl : (p : Point) → c.point_eq p p ≡ true
  point_eq_refl p = (c.point_eq_iff p p).1 refl

  pub sub-zero : (a : Scalar) → a ⊖ c.zero ≡ a
  sub-zero a = ap (λ t. t ⊖ c.zero) (sym (add-zero a)) ∙ add-sub_cancel a c.zero

  pub mul_interchange : (a b d e : Scalar) → (a ⊗ b) ⊗ (d ⊗ e) ≡ (a ⊗ d) ⊗ (b ⊗ e)
  mul_interchange a b d e =
      (a ⊗ b) ⊗ (d ⊗ e)
      ≡⟨ (simp c.mul_assoc) ⟩ a ⊗ ((b ⊗ d) ⊗ e)
      ≡⟨ (rw (c.mul_comm b d)) ⟩ a ⊗ ((d ⊗ b) ⊗ e)
      ≡⟨ (simp c.mul_assoc) ⟩ (a ⊗ d) ⊗ (b ⊗ e) ∎

  pub neg-mul : (a b : Scalar) → c.neg a ⊗ b ≡ c.neg (a ⊗ b)
  neg-mul a b = c.mul_comm (c.neg a) b ∙ mul-neg b a ∙ ap c.neg (c.mul_comm b a)
