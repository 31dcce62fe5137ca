-- ===== src/Db/Load.antt =====
-- What registry/db.rs reads back from the tables that it wrote.
use veiled.Prelude.{
  sym, All-weaken, ◌^◌, ◌≡◌, refl, ap, ◌∙◌, true, Bool, Bool-cases, ltb, ◌==◌, inl, inr, List, [],
  ◌∷◌, length, Bytes, list_eq, nat_eq, All, arith, Outcome, ok, collect, bind-ok, guard_passes,
  ok_or,
}
use veiled.Hex.{Hex}
use veiled.Db.{
  SetRecord, CommitmentRecord, Connection, invalid_column_type, integral_value_out_of_range,
}
use veiled.Db.Scans.{All-perm, length-perm}
use veiled.Db.Read.{
  Scan, DbState, SetRow, CommitmentRow, insert_ordered, order_by, commitment_leb, read_set_id,
  read_set, read_commitment, load_merchants, load_sets, load_commitments, load_state,
}
use veiled.Db.Keys.{IsSetId, IsDatabase, IsCommitmentRecord}

-- A reading that goes through row by row.
collect-All {κ ℓ μ} :
    {E : Type κ} {A : Type ℓ} {B : Type μ} (f : A → Outcome E B) (xs : List A)
    → All (λ a. (b : B) × (f a ≡ ok b)) xs
    → (ys : List B) × ((collect f xs ≡ ok ys) × (length ys ≡ length xs))
collect-All f [] h = ([], (refl, refl))
collect-All f (x ∷ xs) ((y, e), h) =
    let (ys, (es, l)) = collect-All f xs h in
    (y ∷ ys, (bind-ok _ e ∙ bind-ok _ es, omega (arith, l)))

module _ {ℓ κ} {R : Type ℓ} (P : R → Type κ) (before : R → R → Bool) where
  All-insert_ordered :
      (row : R) (rows : List R) → P row → All P rows → All P (insert_ordered before row rows)
  unfolding insert_ordered
  All-insert_ordered row [] p h = (p, tt)
  All-insert_ordered row (r ∷ rows) p (q, h) = elim (Bool-cases (before row r)) [
    | inl e ↦ rw e (p, (q, h))
    | inr e ↦ rw e (q, All-insert_ordered row rows p h)
  ]

  All-order_by : (rows : List R) → All P rows → All P (order_by before rows)
  unfolding order_by
  All-order_by [] h = tt
  All-order_by (row ∷ rows) (p, h) =
      All-insert_ordered row (order_by before rows) p (All-order_by rows h)

module _ {ℓ} {R : Type ℓ} (before : R → R → Bool) where
  length-insert_ordered :
      (row : R) (rows : List R) → length (insert_ordered before row rows) ≡ length (row ∷ rows)
  unfolding insert_ordered
  length-insert_ordered row [] = refl
  length-insert_ordered row (r ∷ rows) = elim (Bool-cases (before row r)) [
    | inl e ↦ rw e refl
    | inr e ↦ rw e (omega (arith, length-insert_ordered row rows))
  ]

  length-order_by : (rows : List R) → length (order_by before rows) ≡ length rows
  unfolding order_by
  length-order_by [] = refl
  length-order_by (row ∷ rows) =
      length-insert_ordered row (order_by before rows) ∙ omega (arith, length-order_by rows)

module _ ⦃x : Hex⦄ where
  pub read_set_id-encode : (id : Bytes) → length id ≡ 32 → read_set_id (x.encode id) ≡ ok id
  unfolding read_set_id
  read_set_id-encode id e =
      let t : (length id == 32) ≡ true = ground arith in
      bind-ok _ (ap (λ o. ok_or o invalid_column_type) (x.decode-encode id))
      ∙ guard_passes invalid_column_type _ t

  read_set_id-IsSetId : (text : Bytes) → IsSetId text → (id : Bytes) × (read_set_id text ≡ ok id)
  read_set_id-IsSetId text (id, (e, l)) = (id, ap read_set_id e ∙ read_set_id-encode id l)

  read_set-IsSetId :
      (conn : Connection) (row : SetRecord)
      → IsSetId row.set_id
      → (r : SetRow) × (read_set conn row ≡ ok r)
  unfolding read_set
  read_set-IsSetId conn row h = let (id, e) = read_set_id-IsSetId row.set_id h in (_, bind-ok _ e)

  read_commitment-IsCommitmentRecord :
      (row : CommitmentRecord)
      → IsCommitmentRecord row
      → (r : CommitmentRow) × (read_commitment row ≡ ok r)
  unfolding read_commitment
  read_commitment-IsCommitmentRecord row (h, (l1, (l2, (small, _)))) =
      let (id, e) = read_set_id-IsSetId row.set_id h in
      let t : ltb row.vout (2 ^ 32) ≡ true = ground arith in
      let t1 : (length row.phi == 33) ≡ true = ground arith in
      let t2 : (length row.txid == 32) ≡ true = ground arith in
      (
        _,
        guard_passes integral_value_out_of_range _ t
            ∙ bind-ok _ e
            ∙ guard_passes invalid_column_type _ t1
            ∙ guard_passes invalid_column_type _ t2,
      )

  -- A database that keeps its constraints is read, all rows of it.
  pub load_state-IsDatabase :
      ⦃s : Scan⦄ (conn : Connection)
      → IsDatabase conn
      → (state : DbState) × ((load_state conn ≡ ok state)
          × ((state.merchants ≡ s.rows conn.merchants)
              × ((length state.sets ≡ length conn.sets)
                  × (length state.commitments ≡ length conn.commitments))))
  unfolding load_state load_merchants load_sets load_commitments
  load_state-IsDatabase ⦃s⦄ conn h =
      let scanned = s.rows-Perm conn.sets in
      let (sets, (e1, l1)) = collect-All (read_set conn) (s.rows conn.sets) (
        All-perm (λ r. (q : SetRow) × (read_set conn r ≡ ok q)) conn.sets (s.rows conn.sets) scanned
          (All-weaken conn.sets (λ r p. read_set-IsSetId conn r p) h.sets_sized)) in
      let (cs, (e2, l2)) = collect-All read_commitment (order_by commitment_leb conn.commitments) (
        All-order_by (λ r. (c : CommitmentRow) × (read_commitment r ≡ ok c)) commitment_leb
          conn.commitments
          (All-weaken conn.commitments read_commitment-IsCommitmentRecord h.commitments_sized)) in
      (
        record { merchants = s.rows conn.merchants; sets = sets; commitments = cs },
        (
          bind-ok _ e1 ∙ bind-ok _ e2,
          (
            refl,
            (
              l1 ∙ sym (length-perm conn.sets (s.rows conn.sets) scanned),
              l2 ∙ length-order_by commitment_leb conn.commitments,
            ),
          ),
        ),
      )
