-- ===== src/PaymentIdentity/Decoded.antt =====
-- What the verifier reads back from the prover's lists: points, responses and coefficients.
use veiled.Prelude.{
  ℕ, zero, suc, ◌+◌, ◌<◌, ◌≡◌, refl, sym, ap, ◌∙◌, true, arith, Bool, List, [], ◌∷◌, map, Option,
  none, some, Bytes, length, get_or, get_or-map, tabulate, get_or-tabulate, Outcome, ok, ◌>>=◌,
  expect, bind-ok,
}
use veiled.Crypto.{Crypto, Scalar, Point, ◌⊖◌, ◌⊗◌, ◌⊟◌}
use veiled.Types.{Commitment}
use veiled.PaymentIdentity.Poly.{pow}
use veiled.PaymentIdentity.Prove.{shift_all, responses}
use veiled.PaymentIdentity.Verify.{or_false, require, decode_points, shifted}
use veiled.PaymentIdentity.Membership.{masked}

-- One step of the verifier.
pub require-true {ℓ} : {E : Type ℓ} {b : Bool} (k : Outcome E Bool) → b ≡ true → require b k ≡ k
unfolding require
require-true k h = ap (λ b. require b k) h

pub or_false-some {ℓ κ} :
    {E : Type ℓ} {A : Type κ} {o : Option A} {a : A} (k : A → Outcome E Bool)
    → o ≡ some a
    → or_false o k ≡ k a
unfolding or_false
or_false-some k h = ap (λ o. or_false o k) h

module _ ⦃c : Crypto⦄ where
  pub decode_points-map : (ps : List Point) → decode_points (map c.point_to_bytes ps) ≡ some ps
  unfolding decode_points
  decode_points-map [] = refl
  decode_points-map (p ∷ ps) = rw (c.point_from_bytes-point_to_bytes p, decode_points-map ps)

  -- Encodings of points, one by one.
  abbrev pub AllPoints : List Bytes → Type 0
  AllPoints [] = Unit
  AllPoints (x ∷ xs) = ((p : Point) × (c.point_from_bytes x ≡ some p)) × AllPoints xs

  pub shift_all-shifted {κ} :
      {E : Type κ} (shift : Point) (xs : List Commitment)
      → AllPoints xs
      → shift_all {E = E} shift xs ≡ ok (map (shifted shift) xs)
  unfolding shift_all shifted
  shift_all-shifted shift [] w = refl
  shift_all-shifted shift (x ∷ xs) ((p, e), w) =
      ap (λ o. expect o >>= λ pt. shift_all shift xs >>= λ rest. ok ((pt ⊟ shift) ∷ rest)) e
      ∙ bind-ok _ (shift_all-shifted shift xs w)
      ∙ ap (λ o. ok (elim o [ none ↦ c.identity | some pt ↦ pt ⊟ shift ] ∷ map (shifted shift) xs))
          (sym e)

  module _ (dim : ℕ) (rho : ℕ → ℕ → Scalar) (x : Scalar) where
    pub length-responses :
        (i : ℕ) (ws : List Scalar) → length (responses dim rho x i ws) ≡ length ws
    unfolding responses
    length-responses i [] = refl
    length-responses i (w ∷ ws) = ap suc (length-responses (suc i) ws)

    get_or-responses :
        (i k : ℕ) (ws : List Scalar)
        → k < length ws
        → get_or (responses dim rho x i ws) k c.zero
          ≡ get_or ws k c.zero ⊗ pow x dim ⊖ masked dim rho x (i + k)
    unfolding responses
    get_or-responses i k [] h = elim h [ ]
    get_or-responses i zero (w ∷ ws) h =
        ap (λ t. w ⊗ pow x dim ⊖ masked dim rho x t) {x = i} {y = i + 0} (omega arith)
    get_or-responses i (suc k) (w ∷ ws) h =
        get_or-responses (suc i) k ws (omega arith)
        ∙ ap (λ t. get_or ws k c.zero ⊗ pow x dim ⊖ masked dim rho x t) {x = suc i + k}
            (omega arith)

    -- z_k, as the verifier reads it.
    pub read-responses :
        (k : ℕ) (ws : List Scalar)
        → k < length ws
        → c.bytes_to_scalar (get_or (map c.scalar_to_bytes (responses dim rho x 0 ws)) k [])
          ≡ get_or ws k c.zero ⊗ pow x dim ⊖ masked dim rho x k
    read-responses k ws h =
        ap c.bytes_to_scalar (
          get_or-map c.scalar_to_bytes (responses dim rho x 0 ws) k c.zero []
            (omega (arith, length-responses 0 ws)))
        ∙ c.bytes_to_scalar-scalar_to_bytes _
        ∙ get_or-responses 0 k ws h
        ∙ ap (λ t. get_or ws k c.zero ⊗ pow x dim ⊖ masked dim rho x t) {x = 0 + k} (omega arith)

  -- f[k], as the verifier reads it.
  pub read-tabulate :
      (n k : ℕ) (f : ℕ → Scalar)
      → k < n
      → c.bytes_to_scalar (get_or (tabulate n (λ k. c.scalar_to_bytes (f k))) k []) ≡ f k
  read-tabulate n k f h =
      ap c.bytes_to_scalar (get_or-tabulate n k (λ k. c.scalar_to_bytes (f k)) [] h)
      ∙ c.bytes_to_scalar-scalar_to_bytes (f k)
