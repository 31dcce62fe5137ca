-- ===== src/PaymentIdentity/Others.antt =====
-- The loops over the other services, which leave out the service of the statement.
use veiled.Prelude.{
  ℕ, zero, suc, ◌+◌, ◌-◌, ◌≤◌, ◌<◌, ◌≡◌, refl, sym, ap, ◌∙◌, true, false, ◌&&◌, inl, inr, arith,
  List, [], ◌∷◌, map, Bytes, length, get_or, get_elem?-get_or, leb, ◌==◌, Bool-cases, Outcome, ok,
  bind-ok,
}
use veiled.Crypto.{Crypto, Point, ◌⊞◌, ◌·◌}
use veiled.Crypto.Laws.{padd-identity}
use veiled.Crs.{Crs, h}
use veiled.PaymentIdentity.Prove.{others_from, generators_at}
use veiled.PaymentIdentity.Verify.{add_others}
use veiled.PaymentIdentity.Membership.{dot_from}

-- What is left out is not among the numbers from first on.
pub others_skip :
    (l first count : ℕ)
    → (first == l) ≡ true
    → others_from l first (suc count) ≡ others_from l (suc first) count
others_skip l first count e = rw e

pub others_keep :
    (l first count : ℕ)
    → (first == l) ≡ false
    → others_from l first (suc count) ≡ first ∷ others_from l (suc first) count
others_keep l first count e = rw e

length-others_out : (l first count : ℕ) → l < first → length (others_from l first count) ≡ count
length-others_out l first zero h = refl
length-others_out l first (suc count) h =
    ap length (others_keep l first count (ground arith))
    ∙ ap suc (length-others_out l (suc first) count (omega arith))

pub length-others :
    (l first count : ℕ)
    → first ≤ l
    → l < first + count
    → suc (length (others_from l first count)) ≡ count
length-others l first zero a b = absurd (omega arith)
length-others l first (suc count) a b = elim (Bool-cases (first == l)) [
  | inl e ↦
      ap (λ t. suc (length t)) (others_skip l first count e)
      ∙ ap suc (length-others_out l (suc first) count (ground arith))
  | inr e ↦
      ap (λ t. suc (length t)) (others_keep l first count e)
      ∙ ap suc (length-others l (suc first) count (ground arith) (ground arith))
]

-- Numbers of services, from 1 to L.
abbrev pub Within : ℕ → List ℕ → Type 0
Within l_count [] = Unit
Within l_count (m ∷ ms) = (1 ≤ m) × ((m ≤ l_count) × Within l_count ms)

pub others-Within :
    (l_count l first count : ℕ)
    → 1 ≤ first
    → first + count ≤ suc l_count
    → Within l_count (others_from l first count)
others-Within l_count l first zero a b = tt
others-Within l_count l first (suc count) a b = elim (Bool-cases (first == l)) [
  | inl e ↦
      rw (others_skip l first count e)
        (others-Within l_count l (suc first) count (omega arith) (omega arith))
  | inr e ↦
      rw (others_keep l first count e)
        (a, (omega arith, others-Within l_count l (suc first) count (omega arith) (omega arith)))
]

landed {ℓ κ} :
    {E : Type κ} {A : Type ℓ} {p q : A} {m n : ℕ}
    → p ≡ q
    → m ≡ n
    → ◌≡◌ {A = Outcome E (A × ℕ)} (ok (p, m)) (ok (q, n))
landed e f = λ i. ok (e i, f i)

module _ ⦃c : Crypto⦄ (crs : Crs) where
  -- The generator of service m, from 1.
  abbrev pub gen_of : ℕ → Point
  gen_of m = get_or crs.generators (m - 1) c.identity

  pub h_in_range {κ} :
      {E : Type κ} (l : ℕ) → 1 ≤ l → l ≤ length crs.generators → h {E = E} crs l ≡ ok (gen_of l)
  unfolding h
  h_in_range l a b =
      let t : (leb 1 l && leb l (length crs.generators)) ≡ true = ground arith in
      rw (t, get_elem?-get_or crs.generators (l - 1) c.identity (omega arith))

  pub generators_at-map {κ} :
      {E : Type κ} (ms : List ℕ)
      → Within (length crs.generators) ms
      → generators_at {E = E} crs ms ≡ ok (map gen_of ms)
  unfolding generators_at
  generators_at-map [] w = refl
  generators_at-map (m ∷ ms) w =
      bind-ok _ (h_in_range m w.0 w.1.0) ∙ bind-ok _ (generators_at-map ms w.1.1)

  pub add_others-dot {κ} :
      {E : Type κ} (z_responses : List Bytes) (acc : Point) (idx : ℕ) (ms : List ℕ)
      → Within (length crs.generators) ms
      → add_others {E = E} crs z_responses acc idx ms
        ≡ ok (
          acc ⊞ dot_from (λ i. c.bytes_to_scalar (get_or z_responses i [])) idx (map gen_of ms),
          idx + length ms,
        )
  unfolding add_others dot_from
  add_others-dot z acc idx [] w = landed (sym (padd-identity acc)) (omega arith)
  add_others-dot {E} z acc idx (m ∷ ms) w =
      bind-ok _ (h_in_range m w.0 w.1.0)
      ∙ add_others-dot z (acc ⊞ gen_of m · c.bytes_to_scalar (get_or z idx [])) (suc idx) ms w.1.1
      ∙ landed (c.padd_assoc acc _ _) (omega arith)
