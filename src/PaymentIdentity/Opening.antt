-- ===== src/PaymentIdentity/Opening.antt =====
-- The opening of the shifted commitment of the prover of core/payment_identity.rs.
use veiled.Prelude.{
  ℕ, zero, suc, ◌+◌, ◌-◌, ◌≤◌, ◌<◌, ◌≡◌, refl, sym, ap, ap₂, ◌∙◌, inl, inr, arith, List, [], ◌∷◌,
  ◌++◌, map, Bytes, length, get_or, ◌==◌, Bool-cases,
}
use veiled.Crypto.{Crypto, Scalar, Point, ◌⊞◌, ◌⊟◌, ◌·◌}
use veiled.Crypto.Laws.{padd-identity, sub_eq}
use veiled.Crs.{Crs, add_values}
use veiled.PaymentIdentity.Prove.{others_from, others}
use veiled.PaymentIdentity.Membership.{dot_from}
use veiled.PaymentIdentity.Others.{others_skip, others_keep, gen_of}

-- The sum of F m over the services m of a list; F takes the service's position, from 0.
module _ ⦃c : Crypto⦄ (f : ℕ → Point) where
  abbrev sum_at : List ℕ → Point
  sum_at [] = c.identity
  sum_at (m ∷ ms) = f (m - 1) ⊞ sum_at ms

  abbrev range_sum : ℕ → ℕ → Point
  range_sum i zero = c.identity
  range_sum i (suc count) = f i ⊞ range_sum (suc i) count

  sum_at_out : (l i count : ℕ) → l ≤ i → sum_at (others_from l (suc i) count) ≡ range_sum i count
  sum_at_out l i zero le = refl
  sum_at_out l i (suc count) le =
      ap sum_at (others_keep l (suc i) count (ground arith))
      ∙ ap₂ ◌⊞◌ (ap f {x = suc i - 1} (omega arith)) (sum_at_out l (suc i) count (omega arith))

  -- All services are the others and the one left out.
  sum_at_in :
      (l i count : ℕ)
      → i < l
      → l ≤ i + count
      → sum_at (others_from l (suc i) count) ⊞ f (l - 1) ≡ range_sum i count
  sum_at_in l i zero a b = absurd (omega arith)
  sum_at_in l i (suc count) a b = elim (Bool-cases (suc i == l)) [
    | inl e ↦
        ap (λ t. sum_at t ⊞ f (l - 1)) (others_skip l (suc i) count e)
        ∙ ap₂ ◌⊞◌ (sum_at_out l (suc i) count (ground arith))
            (ap f {x = l - 1} {y = i} (ground arith))
        ∙ c.padd_comm (range_sum (suc i) count) (f i)
    | inr e ↦
        ap (λ t. sum_at t ⊞ f (l - 1)) (others_keep l (suc i) count e)
        ∙ c.padd_assoc (f (suc i - 1)) (sum_at (others_from l (suc (suc i)) count)) (f (l - 1))
        ∙ ap₂ ◌⊞◌ (ap f {x = suc i - 1} (omega arith))
            (sum_at_in l (suc i) count (ground arith) (omega arith))
  ]

module _ ⦃c : Crypto⦄ where
  -- The term of service i + 1 in Φ.
  abbrev value_at : List Point → List Bytes → ℕ → Point
  value_at gens nuls i = get_or gens i c.identity · c.bytes_to_scalar (get_or nuls i [])

  range_sum_shift :
      (f : ℕ → Point) (i count : ℕ) → range_sum f (suc i) count ≡ range_sum (λ t. f (suc t)) i count
  range_sum_shift f i zero = refl
  range_sum_shift f i (suc count) = ap (λ t. f (suc i) ⊞ t) (range_sum_shift f (suc i) count)

  add_values_eq :
      (p : Point) (gens : List Point) (nuls : List Bytes)
      → length nuls ≡ length gens
      → add_values p gens nuls ≡ p ⊞ range_sum (value_at gens nuls) 0 (length gens)
  unfolding add_values
  add_values_eq p [] nuls e = sym (padd-identity p)
  add_values_eq p (g ∷ gens) [] e = absurd (omega arith)
  add_values_eq p (g ∷ gens) (n ∷ nuls) e =
      add_values_eq (p ⊞ g · c.bytes_to_scalar n) gens nuls (omega arith)
      ∙ c.padd_assoc p (g · c.bytes_to_scalar n) _
      ∙ ap (λ t. p ⊞ (g · c.bytes_to_scalar n ⊞ t))
          (sym (range_sum_shift (value_at (g ∷ gens) (n ∷ nuls)) 0 (length gens)))

  -- Σ of generators times scalars, list against list.
  abbrev pub dot : List Point → List Scalar → Point
  dot (p ∷ ps) (s ∷ ss) = p · s ⊞ dot ps ss
  dot _ _ = c.identity

  dot_from_shift :
      (w : ℕ → Scalar) (i : ℕ) (gens : List Point)
      → dot_from w (suc i) gens ≡ dot_from (λ t. w (suc t)) i gens
  unfolding dot_from
  dot_from_shift w i [] = refl
  dot_from_shift w i (p ∷ ps) = ap (λ t. p · w (suc i) ⊞ t) (dot_from_shift w (suc i) ps)

  pub dot_from-dot :
      (gens : List Point) (ws : List Scalar)
      → length gens ≡ length ws
      → dot_from (λ i. get_or ws i c.zero) 0 gens ≡ dot gens ws
  unfolding dot_from
  dot_from-dot [] ws e = refl
  dot_from-dot (p ∷ ps) [] e = absurd (omega arith)
  dot_from-dot (p ∷ ps) (s ∷ ss) e =
      ap (λ t. p · s ⊞ t)
        (dot_from_shift (λ i. get_or (s ∷ ss) i c.zero) 0 ps ∙ dot_from-dot ps ss (omega arith))

  pub dot_from_snoc :
      (w : ℕ → Scalar) (i : ℕ) (gens : List Point) (p : Point)
      → dot_from w i (gens ++ p ∷ []) ≡ dot_from w i gens ⊞ p · w (i + length gens)
  unfolding dot_from
  dot_from_snoc w i [] p =
      padd-identity (p · w i)
      ∙ ap (λ t. p · w t) {x = i} {y = i + 0} (omega arith)
      ∙ sym (c.identity-padd _)
  dot_from_snoc w i (q ∷ qs) p =
      ap (λ t. q · w i ⊞ t)
        (dot_from_snoc w (suc i) qs p
          ∙ ap (λ t. dot_from w (suc i) qs ⊞ p · w t) {x = suc i + length qs} (omega arith))
      ∙ sym (c.padd_assoc (q · w i) (dot_from w (suc i) qs) _)

  pub dot_from_congr :
      (v w : ℕ → Scalar) (i n : ℕ) (gens : List Point)
      → ((k : ℕ) → k < n → v k ≡ w k)
      → i + length gens ≤ n
      → dot_from v i gens ≡ dot_from w i gens
  unfolding dot_from
  dot_from_congr v w i n [] same le = refl
  dot_from_congr v w i n (p ∷ ps) same le =
      ap₂ ◌⊞◌ (ap (λ t. p · t) (same i (omega arith)))
        (dot_from_congr v w (suc i) n ps same (omega arith))

  exchange : (p q r t : Point) → (p ⊞ (q ⊞ r)) ⊞ t ≡ (p ⊞ (q ⊞ t)) ⊞ r
  exchange p q r t =
      ap (λ u. u ⊞ t) (sym (c.padd_assoc p q r))
      ∙ c.padd_assoc (p ⊞ q) r t
      ∙ ap (λ u. (p ⊞ q) ⊞ u) (c.padd_comm r t)
      ∙ sym (c.padd_assoc (p ⊞ q) t r)
      ∙ ap (λ u. u ⊞ r) (c.padd_assoc p q t)

  module _ (crs : Crs) (nuls : List Bytes) where
    -- s_m, from 1
    abbrev pub scalar_of : ℕ → Scalar
    scalar_of m = c.bytes_to_scalar (get_or nuls (m - 1) [])

    dot_others :
        (ms : List ℕ) (p : Point) (s : Scalar)
        → dot (map (gen_of crs) ms ++ p ∷ []) (map scalar_of ms ++ s ∷ [])
          ≡ sum_at (value_at crs.generators nuls) ms ⊞ p · s
    dot_others [] p s = c.padd_comm (p · s) c.identity
    dot_others (m ∷ ms) p s =
        ap (λ t. gen_of crs m · scalar_of m ⊞ t) (dot_others ms p s)
        ∙ sym (c.padd_assoc (gen_of crs m · scalar_of m) _ (p · s))

    -- Φ without its value for service l opens to the other values.
    pub shifted_opening :
        (l : ℕ) (k s : Scalar)
        → length nuls ≡ length crs.generators
        → 1 ≤ l
        → l ≤ length crs.generators
        → (add_values (crs.g · k) crs.generators nuls ⊞ crs.h_name · s) ⊟ gen_of crs l · scalar_of l
          ≡ dot
              (crs.g ∷ (map (gen_of crs) (others l (length crs.generators)) ++ crs.h_name ∷ []))
              (k ∷ (map scalar_of (others l (length crs.generators)) ++ s ∷ []))
    shifted_opening l k s e a b = sub_eq _ _ (gen_of crs l · scalar_of l) (
        ap (λ t. t ⊞ crs.h_name · s)
          (add_values_eq (crs.g · k) crs.generators nuls e
            ∙ ap (λ t. crs.g · k ⊞ t)
                (sym (
                  sum_at_in (value_at crs.generators nuls) l 0 (length crs.generators) a
                    (omega arith))))
        ∙ exchange (crs.g · k) _ (gen_of crs l · scalar_of l) (crs.h_name · s)
        ∙ ap (λ t. (crs.g · k ⊞ t) ⊞ gen_of crs l · scalar_of l)
            (sym (dot_others (others l (length crs.generators)) crs.h_name s)))
