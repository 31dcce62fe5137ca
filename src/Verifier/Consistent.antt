-- ===== src/Verifier/Consistent.antt =====
-- The three collections of `VerifierState`, core/verifier.rs, under each step.
use veiled.Prelude.{
  ◌≡◌, ◌≢◌, refl, sym, ap, ◌∙◌, ℕ, Bool, true, false, ◌||◌, ◌⊎◌, inl, inr, arith, List, Option,
  some, Bool-cases, Bytes, list_eq, nat_eq, ◌===◌, beq_refl, if◌then◌else◌,
}
use veiled.Types.{Commitment}
use veiled.Verifier.{
  RegistrationResult, VerifierState, new, cache_set, has_nullifier, has_pseudonym,
  lookup_by_pseudonym, store,
}
use veiled.Verifier.Register.{store-knows}

-- A conditional entry that is there is one of the two.
if_some :
    {A : Type 0} {a r : A} {o : Option A} (b : Bool)
    → (if b then some a else o) ≡ some r
    → ((b ≡ true) × (r ≡ a)) ⊎ ((b ≡ false) × (o ≡ some r))
if_some true e = inl (refl, ground arith)
if_some false e = inr (refl, e)

pub true≢false : true ≢ false
true≢false e = ground arith

-- The three collections agree, and a nullifier has one pseudonym.
pub record IsConsistent (state : VerifierState) : Type 0 where
  pub listed :
      (p : Bytes) (r : RegistrationResult)
      → lookup_by_pseudonym state p ≡ some r
      → (r.pseudonym ≡ p)
        × ((has_nullifier state r.public_nullifier ≡ true) × (has_pseudonym state p ≡ true))
  pub unique :
      (p q : Bytes) (r t : RegistrationResult)
      → lookup_by_pseudonym state p ≡ some r
      → lookup_by_pseudonym state q ≡ some t
      → r.public_nullifier ≡ t.public_nullifier
      → p ≡ q
  pub found :
      (p : Bytes)
      → has_pseudonym state p ≡ true
      → (r : RegistrationResult) × (lookup_by_pseudonym state p ≡ some r)

pub new-IsConsistent : (i : ℕ) → IsConsistent (new i)
unfolding new lookup_by_pseudonym has_pseudonym
new-IsConsistent i = record {
  listed = λ p r h. absurd (ground arith);
  unique = λ p q r t h. absurd (ground arith);
  found = λ p h. absurd (ground arith);
}

pub cache_set-IsConsistent :
    (state : VerifierState) (id : Bytes) (set : List Commitment)
    → IsConsistent state
    → IsConsistent (cache_set state id set)
unfolding cache_set lookup_by_pseudonym has_pseudonym has_nullifier
cache_set-IsConsistent state id set h = record {
  listed = h.listed;
  unique = h.unique;
  found = h.found;
}

module _ (state : VerifierState) (new_entry : RegistrationResult) (h : IsConsistent state)
    (fresh_nul : has_nullifier state new_entry.public_nullifier ≡ false)
    (fresh_pn : has_pseudonym state new_entry.pseudonym ≡ false) where
  -- An entry of the next table is the new one or an old one.
  entry :
      (p : Bytes) (r : RegistrationResult)
      → lookup_by_pseudonym (store state new_entry) p ≡ some r
      → ((new_entry.pseudonym ≡ p) × (r ≡ new_entry)) ⊎ (lookup_by_pseudonym state p ≡ some r)
  entry p r e =
      elim (if_some (new_entry.pseudonym === p) (sym (store-knows state new_entry p p).1.1 ∙ e)) [
        | inl (same, is_new) ↦ inl ((list_eq.beq_iff _ _).0 same, is_new)
        | inr (_, old) ↦ inr old
      ]

  knows_nullifier :
      (n : Bytes) → has_nullifier state n ≡ true → has_nullifier (store state new_entry) n ≡ true
  knows_nullifier n k = (store-knows state new_entry n n).0 ∙ ground (arith, k)

  knows_pseudonym :
      (p : Bytes) → has_pseudonym state p ≡ true → has_pseudonym (store state new_entry) p ≡ true
  knows_pseudonym p k = (store-knows state new_entry p p).1.0 ∙ ground (arith, k)

  next_listed :
      (p : Bytes) (r : RegistrationResult)
      → lookup_by_pseudonym (store state new_entry) p ≡ some r
      → (r.pseudonym ≡ p)
        × ((has_nullifier (store state new_entry) r.public_nullifier ≡ true)
            × (has_pseudonym (store state new_entry) p ≡ true))
  next_listed p r e = elim (entry p r e) [
    | inl (is_p, is_new) ↦ (
      ap (λ t. t.pseudonym) is_new ∙ is_p,
      (
        (store-knows state new_entry r.public_nullifier p).0
            ∙ ap (λ b. b || has_nullifier state r.public_nullifier)
                (ap (λ t. new_entry.public_nullifier === t.public_nullifier) is_new
                  ∙ beq_refl new_entry.public_nullifier),
        (store-knows state new_entry p p).1.0
            ∙ ap (λ b. b || has_pseudonym state p)
                (ap (λ t. new_entry.pseudonym === t) (sym is_p) ∙ beq_refl new_entry.pseudonym),
      ),
    )
    | inr old ↦
        let (is_p, (n, q)) = h.listed p r old in
        (is_p, (knows_nullifier r.public_nullifier n, knows_pseudonym p q))
  ]

  -- The nullifier of the new entry belongs to no entry from before.
  old_differs :
      (p : Bytes) (r : RegistrationResult)
      → lookup_by_pseudonym state p ≡ some r
      → r.public_nullifier ≢ new_entry.public_nullifier
  old_differs p r old e =
      let used = (h.listed p r old).1.0 in
      true≢false (sym used ∙ ap (has_nullifier state) e ∙ fresh_nul)

  next_unique :
      (p q : Bytes) (r t : RegistrationResult)
      → lookup_by_pseudonym (store state new_entry) p ≡ some r
      → lookup_by_pseudonym (store state new_entry) q ≡ some t
      → r.public_nullifier ≡ t.public_nullifier
      → p ≡ q
  next_unique p q r t ep eq e = elim (entry p r ep) [
    | inl (is_p, r_new) ↦ elim (entry q t eq) [
      | inl (is_q, t_new) ↦ sym is_p ∙ is_q
      | inr old ↦ absurd (old_differs q t old (sym e ∙ ap (λ u. u.public_nullifier) r_new))
    ]
    | inr old_p ↦ elim (entry q t eq) [
      | inl (is_q, t_new) ↦ absurd (old_differs p r old_p (e ∙ ap (λ u. u.public_nullifier) t_new))
      | inr old_q ↦ h.unique p q r t old_p old_q e
    ]
  ]

  next_found :
      (p : Bytes)
      → has_pseudonym (store state new_entry) p ≡ true
      → (r : RegistrationResult) × (lookup_by_pseudonym (store state new_entry) p ≡ some r)
  next_found p e =
      let is_entry = (store-knows state new_entry p p).1.1 in
      elim (Bool-cases (new_entry.pseudonym === p)) [
        | inl same ↦ (
          new_entry,
          is_entry ∙ ap (λ b. if b then some new_entry else lookup_by_pseudonym state p) same,
        )
        | inr other ↦
            let was : has_pseudonym state p ≡ true =
              ap (λ b. b || has_pseudonym state p) (sym other)
              ∙ sym (store-knows state new_entry p p).1.0
              ∙ e in
            let (r, old) = h.found p was in
            (
              r,
              is_entry
                  ∙ ap (λ b. if b then some new_entry else lookup_by_pseudonym state p) other
                  ∙ old,
            )
      ]

  pub store-IsConsistent : IsConsistent (store state new_entry)
  store-IsConsistent = record { listed = next_listed; unique = next_unique; found = next_found }
