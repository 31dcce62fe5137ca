-- ===== src/Prelude/Results.antt =====
-- Results of Rust functions: `Ok`, `Err` with the function's error type, or a panic.

use mathlib.Core.Path.{◌≡◌, refl, ap}
use mathlib.Core.Logic.{◌≢◌, ◌⊎◌, inl, inr}
use mathlib.Core.Bool.{Bool, true, false}
use mathlib.Core.Option.{Option, none, some}
use mathlib.Core.List.{List, [], ◌∷◌}

pub data Outcome {ℓ κ} (E : Type ℓ) (A : Type κ) : Type (ℓ ⊔ κ) where
  ok : A → Outcome E A
  err : E → Outcome E A
  panic : Outcome E A

-- The operator `?`.
infixl 5 ◌>>=◌ ◌>>◌
abbrev pub ◌>>=◌ {ℓ κ μ} :
    {E : Type ℓ} {A : Type κ} {B : Type μ} → Outcome E A → (A → Outcome E B) → Outcome E B
ok a >>= f = f a
err e >>= f = err e
panic >>= f = panic

abbrev pub ◌>>◌ {ℓ μ} : {E : Type ℓ} {B : Type μ} → Outcome E (Unit {0}) → Outcome E B → Outcome E B
m >> k = m >>= λ _. k

-- `if !test { return Err(e) }`
abbrev pub guard {ℓ} : {E : Type ℓ} → Bool → E → Outcome E (Unit {0})
guard true e = ok tt
guard false e = err e

-- `ok_or(e)`, and `unwrap` or `expect`.
abbrev pub ok_or {ℓ κ} : {E : Type ℓ} {A : Type κ} → Option A → E → Outcome E A
ok_or none e = err e
ok_or (some a) e = ok a

abbrev pub expect {ℓ κ} : {E : Type ℓ} {A : Type κ} → Option A → Outcome E A
expect none = panic
expect (some a) = ok a

-- `unwrap` or `expect` on a `Result`.
abbrev pub unwrap {ℓ κ μ} : {F : Type ℓ} {E : Type κ} {A : Type μ} → Outcome F A → Outcome E A
unwrap (ok a) = ok a
unwrap (err e) = panic
unwrap panic = panic

-- `assert!`
abbrev pub assert {ℓ} : {E : Type ℓ} → Bool → Outcome E (Unit {0})
assert true = ok tt
assert false = panic

-- One step of a `do` block whose action is known.
pub bind-ok {ℓ κ μ} :
    {E : Type ℓ} {A : Type κ} {B : Type μ} {m : Outcome E A} {a : A} (f : A → Outcome E B)
    → m ≡ ok a
    → (m >>= f) ≡ f a
bind-ok f h = ap (λ m. m >>= f) h

pub ok_injective {ℓ κ} :
    {E : Type ℓ} {A : Type κ} {a b : A} → ◌≡◌ {A = Outcome E A} (ok a) (ok b) → a ≡ b
ok_injective e = cc

-- A block that returns has passed its first step.
pub guard_inverts {ℓ κ} :
    {E : Type ℓ} {A : Type κ} {a : A} (b : Bool) (e : E) (k : Outcome E A)
    → (guard b e >> k) ≡ ok a
    → (b ≡ true) × (k ≡ ok a)
guard_inverts true e k h = (refl, h)
guard_inverts false e k h = cc

pub assert_inverts {ℓ κ} :
    {E : Type ℓ} {A : Type κ} {a : A} (b : Bool) (k : Outcome E A)
    → (assert b >> k) ≡ ok a
    → (b ≡ true) × (k ≡ ok a)
assert_inverts true k h = (refl, h)
assert_inverts false k h = cc

pub bind_inverts {ℓ κ μ} :
    {E : Type ℓ} {A : Type κ} {B : Type μ} {b : B} (m : Outcome E A) (f : A → Outcome E B)
    → (m >>= f) ≡ ok b
    → (a : A) × ((m ≡ ok a) × (f a ≡ ok b))
bind_inverts (ok a) f h = (a, (refl, h))
bind_inverts (err e) f h = cc
bind_inverts panic f h = cc

-- A method that changes its state only when its checks pass.
abbrev pub on_ok {ℓ κ μ ν} :
    {S : Type ℓ} {E : Type κ} {A : Type μ} {B : Type ν}
    → S
    → Outcome E A
    → (A → S × B)
    → S × Outcome E B
on_ok state (ok a) f = let (next, b) = f a in (next, ok b)
on_ok state (err e) f = (state, err e)
on_ok state panic f = (state, panic)

pub ok_or_inverts {ℓ κ} :
    {E : Type ℓ} {A : Type κ} {a : A} (o : Option A) (e : E) → ok_or o e ≡ ok a → o ≡ some a
ok_or_inverts none e h = cc
ok_or_inverts (some b) e h = ap some (ok_injective h)

-- The next state and the result of a method that was guarded.
pub on_ok_inverts {ℓ κ μ ν} :
    {S : Type ℓ} {E : Type κ} {A : Type μ} {B : Type ν} (state : S) (m : Outcome E A)
    (f : A → S × B) (b : B)
    → (on_ok state m f).1 ≡ ok b
    → (a : A) × ((m ≡ ok a) × (((on_ok state m f).0 ≡ (f a).0) × ((f a).1 ≡ b)))
on_ok_inverts state (ok a) f b e = (a, (refl, (refl, ok_injective e)))
on_ok_inverts state (err x) f b e = cc
on_ok_inverts state panic f b e = cc

pub on_ok_fails {ℓ κ μ ν} :
    {S : Type ℓ} {E : Type κ} {A : Type μ} {B : Type ν} (state : S) (m : Outcome E A)
    (f : A → S × B)
    → ((b : B) → (on_ok state m f).1 ≢ ok b)
    → (on_ok state m f).0 ≡ state
on_ok_fails state (ok a) f e = absurd (e (f a).1 refl)
on_ok_fails state (err x) f e = refl
on_ok_fails state panic f e = refl

pub guard_passes {ℓ κ} :
    {E : Type ℓ} {A : Type κ} {b : Bool} (e : E) (k : Outcome E A) → b ≡ true → (guard b e >> k) ≡ k
guard_passes e k h = ap (λ b. guard b e >> k) h

-- The result of a method whose checks pass.
pub on_ok_passes {ℓ κ μ ν} :
    {S : Type ℓ} {E : Type κ} {A : Type μ} {B : Type ν} (state : S) {m : Outcome E A} {a : A}
    (f : A → S × B)
    → m ≡ ok a
    → on_ok state m f ≡ ((f a).0, ok (f a).1)
on_ok_passes state f h = ap (λ m. on_ok state m f) h

pub ok_cases {ℓ κ} :
    {E : Type ℓ} {A : Type κ} (m : Outcome E A) → ((a : A) × (m ≡ ok a)) ⊎ ((a : A) → m ≢ ok a)
ok_cases (ok a) = inl (a, refl)
ok_cases (err e) = inr (λ a h. cc)
ok_cases panic = inr (λ a h. cc)

pub bind-panic {ℓ κ μ} :
    {E : Type ℓ} {A : Type κ} {B : Type μ} {m : Outcome E A} (f : A → Outcome E B)
    → m ≡ panic
    → (m >>= f) ≡ panic
bind-panic f h = ap (λ m. m >>= f) h

-- `map_err`
abbrev pub map_err {ℓ κ μ} :
    {E : Type ℓ} {F : Type κ} {A : Type μ} → (E → F) → Outcome E A → Outcome F A
map_err f (ok a) = ok a
map_err f (err e) = err (f e)
map_err f panic = panic

-- `iter().map(f).collect::<Result<_, _>>()`: the first error ends it.
abbrev pub collect {ℓ κ μ} :
    {E : Type ℓ} {A : Type κ} {B : Type μ} → (A → Outcome E B) → List A → Outcome E (List B)
collect f [] = ok []
collect f (x ∷ xs) = f x >>= λ y. collect f xs >>= λ ys. ok (y ∷ ys)

pub bind_err {ℓ κ μ} :
    {E : Type ℓ} {A : Type κ} {B : Type μ} {m : Outcome E A} {e : E} (f : A → Outcome E B)
    → m ≡ err e
    → (m >>= f) ≡ err e
bind_err f h = ap (λ m. m >>= f) h

pub map_err_inverts {ℓ κ μ} :
    {E : Type ℓ} {F : Type κ} {A : Type μ} {a : A} (f : E → F) (m : Outcome E A)
    → map_err f m ≡ ok a
    → m ≡ ok a
map_err_inverts f (ok b) e = ap ok (ok_injective e)
map_err_inverts f (err x) e = absurd (cc e)
map_err_inverts f panic e = absurd (cc e)

pub outcome_cases {ℓ κ} :
    {E : Type ℓ} {A : Type κ} (m : Outcome E A)
    → ((a : A) × (m ≡ ok a)) ⊎ (((e : E) × (m ≡ err e)) ⊎ (m ≡ panic))
outcome_cases (ok a) = inl (a, refl)
outcome_cases (err e) = inr (inl (e, refl))
outcome_cases panic = inr (inr refl)

pub unwrap_inverts {ℓ κ μ} :
    {F : Type ℓ} {E : Type κ} {A : Type μ} {a : A} (m : Outcome F A)
    → unwrap {E = E} m ≡ ok a
    → m ≡ ok a
unwrap_inverts (ok b) e = ap ok (ok_injective e)
unwrap_inverts (err x) e = absurd cc
unwrap_inverts panic e = absurd cc

pub expect_inverts {ℓ κ} :
    {E : Type ℓ} {A : Type κ} {a : A} (o : Option A) → expect {E = E} o ≡ ok a → o ≡ some a
expect_inverts none h = cc
expect_inverts (some b) h = ap some (ok_injective h)
