-- ===== src/Types/AnonymitySet.antt =====
-- `AnonymitySet` of core/types.rs.
use veiled.Prelude.{ℕ, Bool, List, [], ◌∷◌, ◌++◌, length, leb}
use veiled.Types.{Commitment}

pub record AnonymitySet : Type 0 where
  pub id : ℕ
  pub commitments : List Commitment
  pub capacity : ℕ

unfoldable new : ℕ → ℕ → AnonymitySet
new id capacity = record { id = id; commitments = []; capacity = capacity }

unfoldable is_full : AnonymitySet → Bool
is_full s = leb s.capacity (length s.commitments)

unfoldable push : AnonymitySet → Commitment → AnonymitySet
push s x = record s { commitments = s.commitments ++ x ∷ [] }
