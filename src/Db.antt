-- ===== src/Db.antt =====
-- registry/db.rs: the SQLite tables of the registry and the statements that write them. SQLite runs
-- the statements as it documents: OR IGNORE skips a row whose key is taken, and a foreign key that is
-- missing fails the statement. Failures of storage are left out.
pub mod Read
pub mod Keys
pub mod Invariant
pub mod Load
pub mod First
pub mod Scans
pub mod Members
pub mod Sets
use veiled.Prelude.{
  ◌==◌, ℕ, zero, suc, ◌+◌, ◌%◌, ◌^◌, Bool, true, ◌&&◌, List, [], ◌∷◌, ◌++◌, Option, none, some, map,
  Bytes, list_eq, nat_eq, pair_eq, Eq, ◌===◌, contains, if◌then◌else◌, Outcome, ok, err,
}
use veiled.Hex.{Hex}
use veiled.Types.{Commitment}

pub record MerchantRow : Type 0 where
  pub name : Bytes
  pub origin : Bytes
  pub email : Bytes
  pub phone : Bytes

-- A row of the table sets; an INTEGER is the 64 bits of its i64.
pub record SetRecord : Type 0 where
  pub set_id : Bytes
  pub beneficiary_capacity : ℕ
  pub sats_per_user : ℕ
  pub finalized : ℕ
  pub commitment_txid : Option Bytes

pub record SetMerchantRecord : Type 0 where
  pub set_id : Bytes
  pub position : ℕ
  pub merchant_name : Bytes

pub record CommitmentRecord : Type 0 where
  pub set_id : Bytes
  pub idx : ℕ
  pub phi : Bytes
  pub txid : Bytes
  pub vout : ℕ

pub record WalletRecord : Type 0 where
  pub id : ℕ
  pub mnemonic : Bytes

-- The tables behind a connection, each in the order of its insertions.
pub record Connection : Type 0 where
  pub merchants : List MerchantRow
  pub sets : List SetRecord
  pub set_merchants : List SetMerchantRecord
  pub commitments : List CommitmentRecord
  pub wallet : List WalletRecord

pub data SqlError : Type 0 where
  foreign_key invalid_column_type integral_value_out_of_range : SqlError

-- The columns of the primary keys.
abbrev pub merchant_key : MerchantRow → Bytes
merchant_key row = row.name

abbrev pub set_key : SetRecord → Bytes
set_key row = row.set_id

abbrev pub set_merchant_key : SetMerchantRecord → Bytes × ℕ
set_merchant_key row = (row.set_id, row.position)

abbrev pub commitment_key : CommitmentRecord → Bytes × ℕ
commitment_key row = (row.set_id, row.idx)

abbrev pub wallet_key : WalletRecord → ℕ
wallet_key row = row.id

abbrev pub merchant_names : Connection → List Bytes
merchant_names conn = map merchant_key conn.merchants

abbrev pub set_ids : Connection → List Bytes
set_ids conn = map set_key conn.sets

-- CREATE TABLE IF NOT EXISTS, on a new file or one that has the tables.
unfoldable pub create_tables : Option Connection → Connection
create_tables none = record {
  merchants = [];
  sets = [];
  set_merchants = [];
  commitments = [];
  wallet = [];
}
create_tables (some conn) = conn

unfoldable pub open_db : Option Connection → Connection
open_db file = create_tables file

-- `n as i64`
abbrev pub as_i64 : ℕ → ℕ
as_i64 n = n % 2 ^ 64

-- INSERT OR IGNORE of a row with its primary key.
abbrev pub insert_or_ignore {ℓ κ} :
    {K : Type ℓ} {R : Type κ} ⦃e : Eq K⦄ → (R → K) → List R → R → List R
insert_or_ignore key table row =
    if contains (map key table) (key row) then table else table ++ row ∷ []

-- The same for a row whose foreign keys are there or not; none when the statement fails.
abbrev pub insert_referring {ℓ κ} :
    {K : Type ℓ} {R : Type κ} ⦃e : Eq K⦄ → (R → K) → Bool → List R → R → Option (List R)
insert_referring key refers table row =
    if contains (map key table) (key row)
    then some table
    else if refers
    then some (table ++ row ∷ [])
    else none

unfoldable pub save_merchant : Connection → Bytes → Bytes → Bytes → Bytes → Connection
save_merchant conn name origin email phone = record conn {
  merchants =
      insert_or_ignore merchant_key conn.merchants
        (record { name = name; origin = origin; email = email; phone = phone });
}

-- The loop of `save_set`, from position `pos` on.
unfoldable pub save_set_merchants :
    Connection → Bytes → ℕ → List Bytes → Connection × Outcome SqlError (Unit {0})
save_set_merchants conn set_id_hex pos [] = (conn, ok tt)
save_set_merchants conn set_id_hex pos (name ∷ names) =
    let refers = contains (set_ids conn) set_id_hex && contains (merchant_names conn) name in
    let row : SetMerchantRecord = record {
      set_id = set_id_hex;
      position = as_i64 pos;
      merchant_name = name;
    } in
    elim (insert_referring set_merchant_key refers conn.set_merchants row) [
      | none ↦ (conn, err foreign_key)
      | some table ↦
          save_set_merchants (record conn { set_merchants = table }) set_id_hex (suc pos) names
    ]

module _ ⦃x : Hex⦄ where
  unfoldable pub save_set :
      Connection → Bytes → ℕ → ℕ → List Bytes → Connection × Outcome SqlError (Unit {0})
  save_set conn set_id beneficiary_capacity sats_per_user names =
      let set_id_hex = x.encode set_id in
      let sets = insert_or_ignore set_key conn.sets (record {
        set_id = set_id_hex;
        beneficiary_capacity = as_i64 beneficiary_capacity;
        sats_per_user = as_i64 sats_per_user;
        finalized = 0;
        commitment_txid = none;
      }) in
      save_set_merchants (record conn { sets = sets }) set_id_hex 0 names

  unfoldable pub save_commitment :
      Connection → Bytes → ℕ → Commitment → Bytes → ℕ → Connection × Outcome SqlError (Unit {0})
  save_commitment conn set_id idx phi txid vout =
      let set_id_hex = x.encode set_id in
      let row : CommitmentRecord = record {
        set_id = set_id_hex;
        idx = as_i64 idx;
        phi = phi;
        txid = txid;
        vout = vout;
      } in
      elim (insert_referring commitment_key (contains (set_ids conn) set_id_hex) conn.commitments
        row) [
          | none ↦ (conn, err foreign_key)
          | some table ↦ (record conn { commitments = table }, ok tt)
        ]

  -- The rows that `mark_set_finalized` leaves.
  abbrev pub finalize_rows : List SetRecord → Bytes → Option Bytes → List SetRecord
  finalize_rows rows set_id commitment_txid =
      map
        (λ (row : SetRecord).
          if row.set_id === x.encode set_id
          then record row { finalized = 1; commitment_txid = commitment_txid }
          else row)
        rows

  unfoldable pub mark_set_finalized : Connection → Bytes → Option Bytes → Connection
  mark_set_finalized conn set_id commitment_txid = record conn {
    sets = finalize_rows conn.sets set_id commitment_txid;
  }

unfoldable pub save_wallet_mnemonic : Connection → Bytes → Connection
save_wallet_mnemonic conn mnemonic = record conn {
  wallet = insert_or_ignore wallet_key conn.wallet (record { id = 1; mnemonic = mnemonic });
}

-- WHERE id = 1
abbrev pub mnemonic_rows : List WalletRecord → List Bytes
mnemonic_rows [] = []
mnemonic_rows (row ∷ rows) =
    let rest = mnemonic_rows rows in if row.id == 1 then row.mnemonic ∷ rest else rest

unfoldable pub load_wallet_mnemonic : Connection → Option Bytes
load_wallet_mnemonic conn = elim (mnemonic_rows conn.wallet) [ [] ↦ none | m ∷ _ ↦ some m ]
