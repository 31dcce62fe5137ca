-- ===== src/Prelude/Slices.antt =====
-- Slices of a byte string that is laid out field after field.
use Prim.Native.Nat.{ℕ, suc, ◌+◌, ◌*◌}
use mathlib.Core.Path.{◌≡◌, refl, sym, ap, ap₂, ◌∙◌, subst}
use mathlib.Core.List.{List, [], ◌∷◌, ◌++◌, append_assoc}
use native.Mathlib.Omega.{arith}
use veiled.Prelude.Lists.{
  length, length-append, take, drop, take-append, drop-append, tabulate_from, tabulate,
}
use veiled.Prelude.Words.{Bytes}

-- `b[start..start + n]`
abbrev pub slice : ℕ → ℕ → Bytes → Bytes
slice start n b = take n (drop start b)

-- The bytes of all elements in turn.
abbrev pub flatten : List Bytes → Bytes
flatten [] = []
flatten (x ∷ xs) = x ++ flatten xs

abbrev pub AllWidth : ℕ → List Bytes → Type 0
AllWidth w [] = Unit
AllWidth w (x ∷ xs) = (length x ≡ w) × AllWidth w xs

pub length-flatten : (w : ℕ) (xs : List Bytes) → AllWidth w xs → length (flatten xs) ≡ length xs * w
length-flatten w [] h = omega arith
length-flatten w (x ∷ xs) (e, h) =
    length-append x (flatten xs) ∙ ap₂ ◌+◌ e (length-flatten w xs h) ∙ grind arith

-- `b` has `rest` from `start` on.
pub record At (b : Bytes) (start : ℕ) (rest : Bytes) : Type 0 where
  pub before : Bytes
  pub laid : b ≡ before ++ rest
  pub here : length before ≡ start

pub at_start : (b : Bytes) → At b 0 b
at_start b = record { before = []; laid = refl; here = refl }

module _ {b : Bytes} {start : ℕ} where
  pub field_here :
      (x rest : Bytes) (n : ℕ) → At b start (x ++ rest) → length x ≡ n → slice start n b ≡ x
  field_here x rest n at e =
      ap (λ t. slice start n t) at.laid
      ∙ ap (take n) (drop-append at.before (x ++ rest) start at.here)
      ∙ take-append x rest n e

  pub after_field :
      (x rest : Bytes) (next : ℕ)
      → At b start (x ++ rest)
      → start + length x ≡ next
      → At b next rest
  after_field x rest next at e = record {
    before = at.before ++ x;
    laid = at.laid ∙ sym (append_assoc at.before x rest);
    here = length-append at.before x ∙ ap (λ t. t + length x) at.here ∙ e;
  }

-- An array of elements of width w, from `origin` on.
array_from :
    (b : Bytes) (origin i w : ℕ) (xs : List Bytes) (rest : Bytes)
    → At b (origin + i * w) (flatten xs ++ rest)
    → AllWidth w xs
    → tabulate_from i (length xs) (λ k. slice (origin + k * w) w b) ≡ xs
array_from b origin i w [] rest at h = refl
array_from b origin i w (x ∷ xs) rest at (e, h) =
    let laid : At b (origin + i * w) (x ++ (flatten xs ++ rest)) =
      subst (At b (origin + i * w)) (append_assoc x (flatten xs) rest) at in
    ap₂ ◌∷◌ (field_here x (flatten xs ++ rest) w laid e) (
      array_from b origin (suc i) w xs rest
        (after_field x (flatten xs ++ rest) (origin + suc i * w) laid
          (ap (λ t. origin + i * w + t) e ∙ grind arith))
        h)

pub array_here :
    (b : Bytes) (origin w n : ℕ) (xs : List Bytes) (rest : Bytes)
    → At b origin (flatten xs ++ rest)
    → AllWidth w xs
    → length xs ≡ n
    → tabulate n (λ k. slice (origin + k * w) w b) ≡ xs
array_here b origin w n xs rest at h len =
    ap (λ n. tabulate n (λ k. slice (origin + k * w) w b)) (sym len)
    ∙ array_from b origin 0 w xs rest
        (subst (λ s. At b s (flatten xs ++ rest)) {x = origin} {y = origin + 0 * w} (omega arith)
          at)
        h
