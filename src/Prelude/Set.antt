-- ===== src/Prelude/Set.antt =====
-- `HashSet` as a list without repetitions: `insert`, and `contains` of Prelude/Equality.antt.
use mathlib.Core.Path.{◌≡◌}
use mathlib.Core.Bool.{true, ◌||◌}
use mathlib.Core.List.{List, [], ◌∷◌}
use mathlib.Core.Logic.{inl, inr}
use native.Mathlib.Omega.{arith}
use veiled.Prelude.Tests.{if◌then◌else◌, Bool-cases}
use veiled.Prelude.Equality.{Eq, ◌===◌, contains}

module _ {ℓ} {A : Type ℓ} ⦃e : Eq A⦄ where
  abbrev pub insert : List A → A → List A
  insert s a = if contains s a then s else a ∷ s

  contains_same :
      (s : List A) (a b : A) → contains s a ≡ true → (a === b) ≡ true → contains s b ≡ true
  contains_same [] a b h same = h
  contains_same (x ∷ s) a b h same =
      ground (arith, contains_same s a b, e.beq_iff a b, e.beq_iff x a, e.beq_iff x b)

  pub contains-insert :
      (s : List A) (a b : A) → contains (insert s a) b ≡ ((a === b) || contains s b)
  contains-insert s a b = elim (Bool-cases (contains s a)) [
    | inl h ↦ ground (arith, contains_same s a b)
    | inr h ↦ rw h
  ]
