-- ===== src/Registry/Merkle.antt =====
-- The Merkle root of `create_anonymity_set` in core/registry.rs: the leaves, padded with the last one
-- to a power of two, hashed in pairs, level by level.
use veiled.Prelude.{
  ℕ, zero, suc, ◌+◌, ◌-◌, ◌*◌, ◌^◌, ◌≤◌, ◌<◌, ◌≡◌, refl, ap, ◌∙◌, arith, inl, inr, leb,
  if◌then◌else◌, Bool-cases, subst, leb→le, List, [], ◌∷◌, ◌++◌, length, map, replicate,
  length-append, length-replicate, Bytes, Outcome, ok, panic, ◌>>=◌, bind-ok,
}
use native.Mathlib.Nat.{pow-suc, pow-succ'}
use veiled.Crypto.{Crypto}
use veiled.Types.{Commitment}

-- `usize::next_power_of_two`: p, p·2, …, the first that is at least n.
unfoldable pub power_from : ℕ → ℕ → ℕ → ℕ
power_from zero p n = p
power_from (suc fuel) p n = let next = power_from fuel (2 * p) n in if leb n p then p else next

-- 2^n is at least n.
unfoldable pub next_power_of_two : ℕ → ℕ
next_power_of_two n = power_from n 1 n

abbrev pub last_or : Bytes → List Bytes → Bytes
last_or d [] = d
last_or d (x ∷ xs) = last_or x xs

-- `while leaves.len() < next_pow2 { leaves.push(*leaves.last().unwrap()) }`
unfoldable pub pad_leaves : List Bytes → List Bytes
pad_leaves leaves =
    leaves ++ replicate (next_power_of_two (length leaves) - length leaves) (last_or [] leaves)

module _ ⦃c : Crypto⦄ where
  unfoldable pub leaves : List Commitment → List Bytes
  leaves set = map c.sha256 set

  -- One level from the one below; a pair that is cut short panics.
  unfoldable pub next_level {κ} : {E : Type κ} → List Bytes → Outcome E (List Bytes)
  next_level [] = ok []
  next_level (a ∷ []) = panic
  next_level (a ∷ b ∷ rest) = do upper ← next_level rest; ok (c.sha256 (a ++ b) ∷ upper)

  -- `while level.len() > 1`, on fuel; then `level[0]`.
  unfoldable pub climb {κ} : {E : Type κ} → ℕ → List Bytes → Outcome E Bytes
  climb fuel [] = panic
  climb fuel (root ∷ []) = ok root
  climb zero (a ∷ b ∷ rest) = panic
  climb (suc fuel) (a ∷ b ∷ rest) = next_level (a ∷ b ∷ rest) >>= λ level. climb fuel level

  unfoldable pub merkle_root {κ} : {E : Type κ} → List Commitment → Outcome E Bytes
  merkle_root set = let padded = pad_leaves (leaves set) in climb (length padded) padded

power_from-IsPower :
    (fuel k n : ℕ)
    → n ≤ 2 ^ (k + fuel)
    → (e : ℕ) × ((power_from fuel (2 ^ k) n ≡ 2 ^ e) × (n ≤ 2 ^ e))
unfolding power_from
power_from-IsPower zero k n h =
    (k, (refl, subst (λ t. n ≤ 2 ^ t) {x = k + 0} {y = k} (omega arith) h))
power_from-IsPower (suc fuel) k n h = elim (Bool-cases (leb n (2 ^ k))) [
  | inl enough ↦ (
    k,
    (ap (λ b. if b then 2 ^ k else power_from fuel (2 * 2 ^ k) n) enough, leb→le n (2 ^ k) enough),
  )
  | inr more ↦
      let (e, (is_power, le)) =
        power_from-IsPower fuel (suc k) n
          (subst (λ t. n ≤ 2 ^ t) {x = k + suc fuel} {y = suc k + fuel} (omega arith) h) in
      (
        e,
        (
          ap (λ b. if b then 2 ^ k else power_from fuel (2 * 2 ^ k) n) more
              ∙ ap (λ t. power_from fuel t n) {x = 2 * 2 ^ k} (omega (arith, pow-suc 2 k))
              ∙ is_power,
          le,
        ),
      )
]

lt_two_pow : (n : ℕ) → n < 2 ^ n
lt_two_pow zero = omega arith
lt_two_pow (suc n) = omega (arith, pow-suc 2 n, lt_two_pow n)

-- The number of padded leaves is a power of two, at least the number of leaves.
pub next_power_of_two-IsPower : (n : ℕ) → (e : ℕ) × ((next_power_of_two n ≡ 2 ^ e) × (n ≤ 2 ^ e))
unfolding next_power_of_two
next_power_of_two-IsPower n =
    power_from-IsPower n 0 n
      (subst (λ t. n ≤ 2 ^ t) {x = n} {y = 0 + n} (omega arith) (omega (arith, lt_two_pow n)))

pub length-pad_leaves :
    (xs : List Bytes) → (e : ℕ) × ((length (pad_leaves xs) ≡ 2 ^ e) × (length xs ≤ 2 ^ e))
unfolding pad_leaves
length-pad_leaves xs =
    let (e, (is_power, le)) = next_power_of_two-IsPower (length xs) in
    (
      e,
      (
        omega (
          arith,
          length-append xs (replicate (next_power_of_two (length xs) - length xs) (last_or [] xs)),
          length-replicate (next_power_of_two (length xs) - length xs) (last_or [] xs),
        ),
        le,
      ),
    )

module _ ⦃c : Crypto⦄ where
  next_level-halves {κ} :
      {E : Type κ} (m : ℕ) (level : List Bytes)
      → length level ≡ 2 * m
      → (upper : List Bytes) × ((next_level {E = E} level ≡ ok upper) × (length upper ≡ m))
  unfolding next_level
  next_level-halves m [] h = ([], (refl, omega arith))
  next_level-halves m (a ∷ []) h = absurd (omega arith)
  next_level-halves {E} m (a ∷ b ∷ rest) h =
      let half : length rest ≡ 2 * (m - 1) = omega arith in
      let (upper, (is_ok, len)) = next_level-halves {E = E} (m - 1) rest half in
      (c.sha256 (a ++ b) ∷ upper, (bind-ok _ is_ok, omega arith))

  climb-ok {κ} :
      {E : Type κ} (e fuel : ℕ) (level : List Bytes)
      → length level ≡ 2 ^ e
      → e ≤ fuel
      → (root : Bytes) × (climb {E = E} fuel level ≡ ok root)
  unfolding climb
  climb-ok e fuel [] h le = absurd (omega (arith, lt_two_pow e))
  climb-ok e fuel (root ∷ []) h le = (root, refl)
  climb-ok zero fuel (a ∷ b ∷ rest) h le = absurd (omega arith)
  climb-ok (suc e) zero (a ∷ b ∷ rest) h le = absurd (omega arith)
  climb-ok {E} (suc e) (suc fuel) (a ∷ b ∷ rest) h le =
      let enough : e ≤ fuel = omega arith in
      let (upper, (is_ok, len)) =
        next_level-halves {E = E} (2 ^ e) (a ∷ b ∷ rest) (h ∙ pow-succ' 2 e) in
      let (root, climbed) = climb-ok {E = E} e fuel upper len enough in
      (root, bind-ok _ is_ok ∙ climbed)

  -- The root of every set that is not empty is computed: no pair of nodes is cut short, and the loop
  -- ends.
  pub merkle_root-ok {κ} :
      {E : Type κ} (set : List Commitment)
      → 1 ≤ length set
      → (root : Bytes) × (merkle_root {E = E} set ≡ ok root)
  unfolding merkle_root
  merkle_root-ok set h =
      let (e, (len, _)) = length-pad_leaves (leaves set) in
      climb-ok e (length (pad_leaves (leaves set))) (pad_leaves (leaves set)) len
        (omega (arith, lt_two_pow e))
