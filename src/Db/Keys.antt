-- ===== src/Db/Keys.antt =====
-- The statements of registry/db.rs as whole histories, and the constraints that the tables declare.
use veiled.Prelude.{
  ◌⊎◌, ℕ, ◌<◌, ◌≤◌, ◌^◌, ◌≡◌, refl, true, Bool, Bool-cases, inl, inr, List, [], ◌∷◌, Option, some,
  map, length, Bytes, Eq, list_eq, nat_eq, pair_eq, contains, Distinct, Distinct-append,
  contains-append, All, All-append, arith, map-append,
}
use veiled.Hex.{Hex}
use veiled.Types.{Commitment}
use veiled.Db.{
  wallet_key, WalletRecord, SetRecord, SetMerchantRecord, CommitmentRecord, Connection,
  set_merchant_key, commitment_key, merchant_names, set_ids, insert_or_ignore, insert_referring,
  save_merchant, save_set, save_commitment, mark_set_finalized, save_wallet_mnemonic,
}

-- One call of a write operation.
pub data Write : Type 0 where
  merchant_saved : (name origin email phone : Bytes) → Write
  set_saved :
      (set_id : Bytes) (beneficiary_capacity sats_per_user : ℕ) (merchant_names : List Bytes)
      → Write
  commitment_saved : (set_id : Bytes) (idx : ℕ) (phi : Commitment) (txid : Bytes) (vout : ℕ) → Write
  mnemonic_saved : (mnemonic : Bytes) → Write
  set_finalized : (set_id : Bytes) (commitment_txid : Option Bytes) → Write

-- The sizes of the Rust types of the arguments.
abbrev pub IsWrite : Write → Type 0
IsWrite (merchant_saved _ _ _ _) = Unit
IsWrite (set_saved set_id _ _ _) = length set_id ≡ 32
IsWrite (commitment_saved set_id _ phi txid vout) =
    (length set_id ≡ 32) × ((length phi ≡ 33) × ((length txid ≡ 32) × (vout < 2 ^ 32)))
IsWrite (mnemonic_saved _) = Unit
IsWrite (set_finalized _ _) = Unit

module _ ⦃x : Hex⦄ where
  -- A write that fails keeps what its earlier statements wrote.
  abbrev pub write : Connection → Write → Connection
  write conn (merchant_saved name origin email phone) = save_merchant conn name origin email phone
  write conn (set_saved set_id capacity sats names) = (save_set conn set_id capacity sats names).0
  write conn (commitment_saved set_id idx phi txid vout) =
      (save_commitment conn set_id idx phi txid vout).0
  write conn (mnemonic_saved mnemonic) = save_wallet_mnemonic conn mnemonic
  write conn (set_finalized set_id txid) = mark_set_finalized conn set_id txid

  abbrev pub writes : Connection → List Write → Connection
  writes conn [] = conn
  writes conn (w ∷ ws) = writes (write conn w) ws

  -- The text of a set id of 32 bytes.
  abbrev pub IsSetId : Bytes → Type 0
  IsSetId text = (set_id : Bytes) × ((text ≡ x.encode set_id) × (length set_id ≡ 32))

  abbrev pub IsCommitmentRecord : CommitmentRecord → Type 0
  IsCommitmentRecord row =
      IsSetId row.set_id
      × ((length row.phi ≡ 33)
          × ((length row.txid ≡ 32) × ((row.vout < 2 ^ 32) × (row.idx < 2 ^ 64))))

  -- The columns of a set: 64 bits each, and a Boolean.
  abbrev pub IsSetRecord : SetRecord → Type 0
  IsSetRecord row =
      (row.beneficiary_capacity < 2 ^ 64) × ((row.sats_per_user < 2 ^ 64) × (row.finalized ≤ 1))

  -- A row of set_merchants names a set and a merchant that are there.
  abbrev pub Refers : Connection → SetMerchantRecord → Type 0
  Refers conn row =
      (contains (set_ids conn) row.set_id ≡ true)
      × (contains (merchant_names conn) row.merchant_name ≡ true)

  -- The primary keys are distinct, the foreign keys are there, and the columns hold values of the
  -- program's types.
  pub record IsDatabase (conn : Connection) : Type 0 where
    pub merchants_distinct : Distinct (merchant_names conn)
    pub sets_distinct : Distinct (set_ids conn)
    pub set_merchants_distinct : Distinct (map set_merchant_key conn.set_merchants)
    pub commitments_distinct : Distinct (map commitment_key conn.commitments)
    pub wallet_distinct : Distinct (map wallet_key conn.wallet)
    pub set_merchants_refer : All (Refers conn) conn.set_merchants
    pub commitments_refer :
        All (λ (row : CommitmentRecord). contains (set_ids conn) row.set_id ≡ true) conn.commitments
    pub sets_sized : All (λ (row : SetRecord). IsSetId row.set_id) conn.sets
    pub sets_bounded : All IsSetRecord conn.sets
    pub positions_bounded :
        All (λ (row : SetMerchantRecord). row.position < 2 ^ 64) conn.set_merchants
    pub one_wallet : All (λ (row : WalletRecord). row.id ≡ 1) conn.wallet
    pub commitments_sized : All IsCommitmentRecord conn.commitments

-- Inserted rows, under their keys.
module _ {ℓ κ} {K : Type ℓ} {R : Type κ} ⦃e : Eq K⦄ (key : R → K) where
  pub Distinct-insert :
      (table : List R) (row : R)
      → Distinct (map key table)
      → Distinct (map key (insert_or_ignore key table row))
  Distinct-insert table row d = elim (Bool-cases (contains (map key table) (key row))) [
    | inl h ↦ rw h d
    | inr h ↦
        rw (h, map-append key table (row ∷ [])) (Distinct-append (map key table) (key row) d h)
  ]

  pub All-insert {μ} :
      (P : R → Type μ) (table : List R) (row : R)
      → All P table
      → P row
      → All P (insert_or_ignore key table row)
  All-insert P table row h p = elim (Bool-cases (contains (map key table) (key row))) [
    | inl t ↦ rw t h
    | inr t ↦ rw t (All-append P table (row ∷ []) h (p, tt))
  ]

  -- What was there stays there.
  pub contains-insert :
      (table : List R) (row : R) (k : K)
      → contains (map key table) k ≡ true
      → contains (map key (insert_or_ignore key table row)) k ≡ true
  contains-insert table row k h = elim (Bool-cases (contains (map key table) (key row))) [
    | inl t ↦ rw t h
    | inr t ↦
        rw (t, map-append key table (row ∷ []), contains-append (map key table) (key row ∷ []) k, h)
          refl
  ]

  -- The row's key is there afterwards.
  pub contains-inserted :
      (table : List R) (row : R)
      → contains (map key (insert_or_ignore key table row)) (key row) ≡ true
  contains-inserted table row = elim (Bool-cases (contains (map key table) (key row))) [
    | inl t ↦ rw t t
    | inr t ↦
        rw
          (
            t,
            map-append key table (row ∷ []),
            contains-append (map key table) (key row ∷ []) (key row),
            t,
            (e.beq_iff (key row) (key row)).1 refl,
          )
          refl
  ]

  -- An insertion that does not fail is that of a row that is ignored or refers.
  pub insert_referring_inserts :
      (refers : Bool) (table table' : List R) (row : R)
      → insert_referring key refers table row ≡ some table'
      → (table' ≡ table) ⊎ ((refers ≡ true) × (table' ≡ insert_or_ignore key table row))
  insert_referring_inserts refers table table' row h = ground (arith, h)
