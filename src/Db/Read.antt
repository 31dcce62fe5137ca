-- ===== src/Db/Read.antt =====
-- `load_state` of registry/db.rs: the rows of the tables as the types of the program. A table without
-- ORDER BY is read in any order.
use veiled.Prelude.{
  ℕ, ◌+◌, ◌%◌, ◌^◌, Bool, true, false, not, ltb, leb, ◌==◌, ◌&&◌, ◌||◌, List, [], ◌∷◌, map, length,
  Bytes, list_eq, nat_eq, ◌===◌, if◌then◌else◌, Outcome, ok, ok_or, guard, collect, ◌>>=◌, ◌>>◌,
}
use mathlib.Core.List.{Permᴰ}
use veiled.Hex.{Hex}
use veiled.Types.{Commitment}
use veiled.Db.{
  MerchantRow, SetRecord, SetMerchantRecord, CommitmentRecord, Connection, SqlError,
  invalid_column_type, integral_value_out_of_range,
}

-- The order in which a SELECT without ORDER BY yields the rows of a table, which SQLite leaves open.
pub record Scan : Type 1 where
  pub rows : {R : Type 0} → List R → List R
  pub rows-Perm : {R : Type 0} (table : List R) → Permᴰ table (rows table)

pub record SetRow : Type 0 where
  pub set_id : Bytes
  pub beneficiary_capacity : ℕ
  pub sats_per_user : ℕ
  pub finalized : Bool
  pub merchant_names : List Bytes

pub record CommitmentRow : Type 0 where
  pub set_id : Bytes
  pub idx : ℕ
  pub phi : Commitment
  pub txid : Bytes
  pub vout : ℕ

pub record DbState : Type 0 where
  pub merchants : List MerchantRow
  pub sets : List SetRow
  pub commitments : List CommitmentRow

-- The order of INTEGER: that of i64.
abbrev pub i64_leb : ℕ → ℕ → Bool
i64_leb a b = leb ((a + 2 ^ 63) % 2 ^ 64) ((b + 2 ^ 63) % 2 ^ 64)

-- The order of TEXT: that of the bytes.
abbrev pub text_leb : Bytes → Bytes → Bool
text_leb [] ys = true
text_leb (x ∷ xs) [] = false
text_leb (x ∷ xs) (y ∷ ys) = ltb x y || ((x == y) && text_leb xs ys)

module _ {ℓ} {R : Type ℓ} where
  -- ORDER BY: rows that compare alike keep their order.
  unfoldable pub insert_ordered : (R → R → Bool) → R → List R → List R
  insert_ordered before row [] = row ∷ []
  insert_ordered before row (r ∷ rows) =
      let rest = insert_ordered before row rows in
      if before row r then row ∷ (r ∷ rows) else r ∷ rest

  unfoldable pub order_by : (R → R → Bool) → List R → List R
  order_by before [] = []
  order_by before (row ∷ rows) = insert_ordered before row (order_by before rows)

-- WHERE set_id = ?1
unfoldable pub members_of : Bytes → List SetMerchantRecord → List SetMerchantRecord
members_of set_id [] = []
members_of set_id (row ∷ rows) =
    let rest = members_of set_id rows in if row.set_id === set_id then row ∷ rest else rest

abbrev pub position_leb : SetMerchantRecord → SetMerchantRecord → Bool
position_leb r s = i64_leb r.position s.position

abbrev pub commitment_leb : CommitmentRecord → CommitmentRecord → Bool
commitment_leb r s =
    if r.set_id === s.set_id then i64_leb r.idx s.idx else text_leb r.set_id s.set_id

unfoldable pub load_merchants : ⦃s : Scan⦄ → Connection → Outcome SqlError (List MerchantRow)
load_merchants ⦃s⦄ conn = ok (s.rows conn.merchants)

module _ ⦃x : Hex⦄ where
  -- The text of a set id as 32 bytes.
  unfoldable pub read_set_id : Bytes → Outcome SqlError Bytes
  read_set_id set_id_hex = do
    set_id_bytes ← ok_or (x.decode set_id_hex) invalid_column_type
    guard (length set_id_bytes == 32) invalid_column_type
    ok set_id_bytes

  unfoldable pub read_set : Connection → SetRecord → Outcome SqlError SetRow
  read_set conn row = do
    set_id ← read_set_id row.set_id
    let names =
        map (λ (m : SetMerchantRecord). m.merchant_name)
          (order_by position_leb (members_of row.set_id conn.set_merchants))
    ok (record {
      set_id = set_id;
      beneficiary_capacity = row.beneficiary_capacity;
      sats_per_user = row.sats_per_user;
      finalized = not (row.finalized == 0);
      merchant_names = names;
    })

  unfoldable pub load_sets : ⦃s : Scan⦄ → Connection → Outcome SqlError (List SetRow)
  load_sets ⦃s⦄ conn = collect (read_set conn) (s.rows conn.sets)

  unfoldable pub read_commitment : CommitmentRecord → Outcome SqlError CommitmentRow
  read_commitment row = do
    guard (ltb row.vout (2 ^ 32)) integral_value_out_of_range
    set_id ← read_set_id row.set_id
    guard (length row.phi == 33) invalid_column_type
    guard (length row.txid == 32) invalid_column_type
    ok (record { set_id = set_id; idx = row.idx; phi = row.phi; txid = row.txid; vout = row.vout })

  unfoldable pub load_commitments : Connection → Outcome SqlError (List CommitmentRow)
  load_commitments conn = collect read_commitment (order_by commitment_leb conn.commitments)

  unfoldable pub load_state : ⦃s : Scan⦄ → Connection → Outcome SqlError DbState
  load_state conn = do
    merchants ← load_merchants conn
    sets ← load_sets conn
    commitments ← load_commitments conn
    ok (record { merchants = merchants; sets = sets; commitments = commitments })
