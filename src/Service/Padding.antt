-- ===== src/Service/Padding.antt =====
-- The padding of the set that registry/service.rs sends.
use veiled.Prelude.{
  ℕ, zero, suc, ◌+◌, ◌-◌, ◌≤◌, ◌≡◌, refl, ap, ◌∙◌, arith, List, [], ◌∷◌, ◌++◌, length,
  length-append, length-replicate, take, take-append, replicate, some,
}
use veiled.Crypto.{Crypto}
use veiled.Types.{Commitment}
use veiled.PaymentIdentity.Decoded.{AllPoints}
use veiled.Service.Handlers.{last_commitment, pad_set}

-- A set of 1 to n commitments becomes one of n, which begins with the set.
pub pad_set-length :
    (n : ℕ) (set : List Commitment)
    → 1 ≤ length set
    → length set ≤ n
    → (length (pad_set n set) ≡ n) × (take (length set) (pad_set n set) ≡ set)
unfolding pad_set
pad_set-length n [] h le = absurd (omega arith)
pad_set-length n (x ∷ xs) h le =
    let k = n - length (x ∷ xs) in
    let e : length (x ∷ xs) + k ≡ n = omega arith in
    (
      length-append (x ∷ xs) (replicate k (last_commitment x xs))
          ∙ ap (λ t. length (x ∷ xs) + t) (length-replicate k (last_commitment x xs))
          ∙ e,
      take-append (x ∷ xs) (replicate k (last_commitment x xs)) (length (x ∷ xs)) refl,
    )

module _ ⦃c : Crypto⦄ where
  AllPoints-append : (xs ys : List Commitment) → AllPoints xs → AllPoints ys → AllPoints (xs ++ ys)
  AllPoints-append [] ys h k = k
  AllPoints-append (x ∷ xs) ys (p, h) k = (p, AllPoints-append xs ys h k)

  AllPoints-replicate :
      (n : ℕ) (x : Commitment)
      → (p : c.Point) × (c.point_from_bytes x ≡ some p)
      → AllPoints (replicate n x)
  AllPoints-replicate zero x h = tt
  AllPoints-replicate (suc n) x h = (h, AllPoints-replicate n x h)

  last-point :
      (x : Commitment) (xs : List Commitment)
      → AllPoints (x ∷ xs)
      → (p : c.Point) × (c.point_from_bytes (last_commitment x xs) ≡ some p)
  last-point x [] h = h.0
  last-point x (y ∷ ys) h = last-point y ys h.1

  -- Padding keeps the commitments points.
  pub pad_set-AllPoints :
      (n : ℕ) (set : List Commitment) → AllPoints set → AllPoints (pad_set n set)
  unfolding pad_set
  pad_set-AllPoints n [] h = tt
  pad_set-AllPoints n (x ∷ xs) h =
      AllPoints-append (x ∷ xs) (replicate (n - length (x ∷ xs)) (last_commitment x xs)) h
        (AllPoints-replicate (n - length (x ∷ xs)) (last_commitment x xs) (last-point x xs h))
