-- ===== src/Db/First.antt =====
-- Restarts of the registry over the tables of registry/db.rs: what INSERT OR IGNORE keeps of a history.
use veiled.Prelude.{
  ℕ, suc, ◌≡◌, refl, sym, ap, ◌∙◌, true, false, Bool-cases, ◌==◌, inl, inr, List, [], ◌∷◌, ◌++◌,
  Option, none, some, Option-cases, map, length, Bytes, Eq, list_eq, nat_eq, pair_eq, ◌===◌, ◌&&◌,
  contains, All, arith, if◌then◌else◌, ok,
}
use veiled.Hex.{Hex}
use veiled.Types.{Commitment}
use veiled.Db.{
  MerchantRow, SetMerchantRecord, CommitmentRecord, WalletRecord, Connection, merchant_key,
  insert_or_ignore, insert_referring, set_merchant_key, commitment_key, open_db, create_tables,
  save_merchant, save_set_merchants, save_set, save_commitment, mark_set_finalized,
  save_wallet_mnemonic, load_wallet_mnemonic, set_ids, as_i64, merchant_names, mnemonic_rows,
  wallet_key,
}
use veiled.Db.Scans.{find_row, find_row-perm}
use veiled.Db.Read.{Scan, DbState, load_state}
use veiled.Db.Keys.{
  Write, merchant_saved, set_saved, commitment_saved, mnemonic_saved, set_finalized, IsWrite,
  writes,
}
use veiled.Db.Invariant.{open_db-IsDatabase}
use veiled.Db.Load.{load_state-IsDatabase}

abbrev pub or_else {ℓ} : {A : Type ℓ} → Option A → Option A → Option A
or_else none o = o
or_else (some a) o = some a

or_else_assoc {ℓ} :
    {A : Type ℓ} (o p q : Option A) → or_else (or_else o p) q ≡ or_else o (or_else p q)
or_else_assoc none p q = refl
or_else_assoc (some a) p q = refl

pub or_else-none {ℓ} : {A : Type ℓ} (o : Option A) → or_else o none ≡ o
or_else-none none = refl
or_else-none (some a) = refl

-- The row with a key, after insertions.
module _ {ℓ κ} {K : Type ℓ} {R : Type κ} ⦃e : Eq K⦄ (key : R → K) where
  find_row-append :
      (rows : List R) (row : R) (k : K)
      → find_row key (rows ++ row ∷ []) k
        ≡ or_else (find_row key rows k) (if key row === k then some row else none)
  find_row-append [] row k = refl
  find_row-append (r ∷ rows) row k = elim (Bool-cases (key r === k)) [
    | inl t ↦ rw t refl
    | inr t ↦ rw t (find_row-append rows row k)
  ]

  find_row-contains :
      (rows : List R) (k : K)
      → contains (map key rows) k ≡ true
      → (r : R) × (find_row key rows k ≡ some r)
  find_row-contains [] k h = absurd cc
  find_row-contains (r ∷ rows) k h = elim (Bool-cases (key r === k)) [
    | inl t ↦ (r, rw t refl)
    | inr t ↦ let (s, q) = find_row-contains rows k (ground (arith, h, t)) in (s, rw t q)
  ]

  -- The row that was there first is kept.
  pub find_row-insert :
      (rows : List R) (row : R) (k : K)
      → find_row key (insert_or_ignore key rows row) k
        ≡ or_else (find_row key rows k) (if key row === k then some row else none)
  find_row-insert rows row k = elim (Bool-cases (contains (map key rows) (key row))) [
    | inr t ↦ rw t (find_row-append rows row k)
    | inl t ↦ elim (Bool-cases (key row === k)) [
      | inr n ↦ rw (t, n) (sym (or_else-none (find_row key rows k)))
      | inl s ↦
          let (r, q) = find_row-contains rows (key row) t in
          let q' : find_row key rows k ≡ some r = rw (← (e.beq_iff (key row) k).0 s) q in
          rw (t, s, q') refl
    ]
  ]

-- What a history saves first: the row of a merchant's name, and the mnemonic.
pub first_merchant : List Write → Bytes → Option MerchantRow
first_merchant [] n = none
first_merchant (merchant_saved name origin email phone ∷ ws) n =
    or_else
      (if name === n
        then some (record { name = name; origin = origin; email = email; phone = phone })
        else none)
      (first_merchant ws n)
first_merchant (_ ∷ ws) n = first_merchant ws n

pub first_mnemonic : List Write → Option Bytes
first_mnemonic [] = none
first_mnemonic (mnemonic_saved mnemonic ∷ ws) = some mnemonic
first_mnemonic (_ ∷ ws) = first_mnemonic ws

module _ ⦃x : Hex⦄ where
  -- The writes of sets and commitments leave the other tables.
  save_set_merchants-keeps :
      (conn : Connection) (id : Bytes) (pos : ℕ) (names : List Bytes)
      → ((save_set_merchants conn id pos names).0.merchants ≡ conn.merchants)
        × ((save_set_merchants conn id pos names).0.wallet ≡ conn.wallet)
  unfolding save_set_merchants
  save_set_merchants-keeps conn id pos [] = (refl, refl)
  save_set_merchants-keeps conn id pos (name ∷ names) =
      let refers = contains (set_ids conn) id && contains (merchant_names conn) name in
      let row : SetMerchantRecord = record {
        set_id = id;
        position = as_i64 pos;
        merchant_name = name;
      } in
      elim (Option-cases (insert_referring set_merchant_key refers conn.set_merchants row)) [
        | inl e ↦ rw (save_set_merchants, e) (refl, refl)
        | inr (table, e) ↦
            rw (save_set_merchants, e)
              (save_set_merchants-keeps (record conn { set_merchants = table }) id (suc pos) names)
      ]

  save_commitment-keeps :
      (conn : Connection) (id : Bytes) (idx : ℕ) (phi : Commitment) (txid : Bytes) (vout : ℕ)
      → ((save_commitment conn id idx phi txid vout).0.merchants ≡ conn.merchants)
        × ((save_commitment conn id idx phi txid vout).0.wallet ≡ conn.wallet)
  unfolding save_commitment
  save_commitment-keeps conn id idx phi txid vout =
      let row : CommitmentRecord = record {
        set_id = x.encode id;
        idx = as_i64 idx;
        phi = phi;
        txid = txid;
        vout = vout;
      } in
      elim (Option-cases (
        insert_referring commitment_key (contains (set_ids conn) row.set_id) conn.commitments
          row)) [
            | inl e ↦ rw (save_commitment, e) (refl, refl)
            | inr (table, e) ↦ rw (save_commitment, e) (refl, refl)
          ]

  find_merchant-writes :
      (conn : Connection) (ws : List Write) (n : Bytes)
      → find_row merchant_key (writes conn ws).merchants n
        ≡ or_else (find_row merchant_key conn.merchants n) (first_merchant ws n)
  unfolding first_merchant save_merchant save_set mark_set_finalized save_wallet_mnemonic
  find_merchant-writes conn [] n = sym (or_else-none _)
  find_merchant-writes conn (merchant_saved name origin email phone ∷ ws) n =
      let row : MerchantRow = record {
        name = name;
        origin = origin;
        email = email;
        phone = phone;
      } in
      find_merchant-writes (save_merchant conn name origin email phone) ws n
      ∙ ap (λ o. or_else o (first_merchant ws n))
          (find_row-insert merchant_key conn.merchants row n)
      ∙ or_else_assoc (find_row merchant_key conn.merchants n) _ _
  find_merchant-writes conn (set_saved id capacity sats names ∷ ws) n =
      find_merchant-writes (save_set conn id capacity sats names).0 ws n
      ∙ ap (λ t. or_else (find_row merchant_key t n) (first_merchant ws n))
          (save_set_merchants-keeps _ (x.encode id) 0 names).0
  find_merchant-writes conn (commitment_saved id idx phi txid vout ∷ ws) n =
      find_merchant-writes (save_commitment conn id idx phi txid vout).0 ws n
      ∙ ap (λ t. or_else (find_row merchant_key t n) (first_merchant ws n))
          (save_commitment-keeps conn id idx phi txid vout).0
  find_merchant-writes conn (mnemonic_saved mnemonic ∷ ws) n =
      find_merchant-writes (save_wallet_mnemonic conn mnemonic) ws n
  find_merchant-writes conn (set_finalized id txid ∷ ws) n =
      find_merchant-writes (mark_set_finalized conn id txid) ws n

  -- The row of the mnemonic, in the table and in a longer one.
  mnemonic_rows-contains :
      (rows : List WalletRecord)
      → contains (map wallet_key rows) 1 ≡ true
      → (m : Bytes) × ((ms : List Bytes) × (mnemonic_rows rows ≡ m ∷ ms))
  mnemonic_rows-contains [] h = absurd cc
  mnemonic_rows-contains (row ∷ rows) h = elim (Bool-cases (row.id == 1)) [
    | inl t ↦ (row.mnemonic, (mnemonic_rows rows, rw t refl))
    | inr t ↦
        let (m, (ms, q)) = mnemonic_rows-contains rows (ground (arith, h, t)) in (m, (ms, rw t q))
  ]

  mnemonic_rows-append :
      (rows : List WalletRecord) (mnemonic : Bytes)
      → contains (map wallet_key rows) 1 ≡ false
      → mnemonic_rows (rows ++ record { id = 1; mnemonic = mnemonic } ∷ []) ≡ mnemonic ∷ []
  mnemonic_rows-append [] mnemonic h = refl
  mnemonic_rows-append (row ∷ rows) mnemonic h =
      let t : (row.id == 1) ≡ false = ground (arith, h) in
      rw t (mnemonic_rows-append rows mnemonic (ground (arith, h)))

  mnemonic_rows-none :
      (rows : List WalletRecord)
      → contains (map wallet_key rows) 1 ≡ false
      → mnemonic_rows rows ≡ []
  mnemonic_rows-none [] h = refl
  mnemonic_rows-none (row ∷ rows) h =
      let t : (row.id == 1) ≡ false = ground (arith, h) in
      rw t (mnemonic_rows-none rows (ground (arith, h)))

  load_wallet_mnemonic-save_wallet_mnemonic :
      (conn : Connection) (mnemonic : Bytes)
      → load_wallet_mnemonic (save_wallet_mnemonic conn mnemonic)
        ≡ or_else (load_wallet_mnemonic conn) (some mnemonic)
  unfolding load_wallet_mnemonic save_wallet_mnemonic
  load_wallet_mnemonic-save_wallet_mnemonic conn mnemonic =
      elim (Bool-cases (contains (map wallet_key conn.wallet) 1)) [
        | inl t ↦
            let (m, (ms, q)) = mnemonic_rows-contains conn.wallet t in
            rw (load_wallet_mnemonic, t, q) refl
        | inr t ↦
            rw
              (
                load_wallet_mnemonic,
                t,
                mnemonic_rows-append conn.wallet mnemonic t,
                mnemonic_rows-none conn.wallet t,
              )
              refl
      ]

  mnemonic-writes :
      (conn : Connection) (ws : List Write)
      → load_wallet_mnemonic (writes conn ws)
        ≡ or_else (load_wallet_mnemonic conn) (first_mnemonic ws)
  unfolding first_mnemonic save_merchant save_set mark_set_finalized load_wallet_mnemonic
  mnemonic-writes conn [] = sym (or_else-none _)
  mnemonic-writes conn (merchant_saved name origin email phone ∷ ws) =
      mnemonic-writes (save_merchant conn name origin email phone) ws
  mnemonic-writes conn (set_saved id capacity sats names ∷ ws) =
      mnemonic-writes (save_set conn id capacity sats names).0 ws
      ∙ ap
          (λ t. or_else (elim (mnemonic_rows t) [ [] ↦ none | m ∷ _ ↦ some m ]) (first_mnemonic ws))
          (save_set_merchants-keeps _ (x.encode id) 0 names).1
  mnemonic-writes conn (commitment_saved id idx phi txid vout ∷ ws) =
      mnemonic-writes (save_commitment conn id idx phi txid vout).0 ws
      ∙ ap
          (λ t. or_else (elim (mnemonic_rows t) [ [] ↦ none | m ∷ _ ↦ some m ]) (first_mnemonic ws))
          (save_commitment-keeps conn id idx phi txid vout).1
  mnemonic-writes conn (mnemonic_saved mnemonic ∷ ws) =
      mnemonic-writes (save_wallet_mnemonic conn mnemonic) ws
      ∙ ap (λ o. or_else o (first_mnemonic ws))
          (load_wallet_mnemonic-save_wallet_mnemonic conn mnemonic)
      ∙ or_else_assoc (load_wallet_mnemonic conn) (some mnemonic) (first_mnemonic ws)
  mnemonic-writes conn (set_finalized id txid ∷ ws) =
      mnemonic-writes (mark_set_finalized conn id txid) ws

  -- After any history of writes to a new database, failed ones included, load_state reads the whole
  -- database: it has a set and a commitment for each row, and for each merchant name the row that was
  -- saved first under that name, or none when the name was never saved. load_wallet_mnemonic reads
  -- the mnemonic that was saved first.
  pub load_state-writes :
      ⦃s : Scan⦄ (ws : List Write)
      → All IsWrite ws
      → (state : DbState) × ((load_state (writes (open_db none) ws) ≡ ok state)
          × (((length state.sets ≡ length (writes (open_db none) ws).sets)
                × (length state.commitments ≡ length (writes (open_db none) ws).commitments))
              × (((n : Bytes) → find_row merchant_key state.merchants n ≡ first_merchant ws n)
                  × (load_wallet_mnemonic (writes (open_db none) ws) ≡ first_mnemonic ws))))
  unfolding first_merchant open_db create_tables first_mnemonic load_wallet_mnemonic
  load_state-writes ⦃s⦄ ws t =
      let conn = writes (open_db none) ws in
      let is = open_db-IsDatabase ws t in
      let (state, (e, (same, lengths))) = load_state-IsDatabase conn is in
      (
        state,
        (
          e,
          (
            lengths,
            (
              λ n.
                  ap (λ rows. find_row merchant_key rows n) same
                  ∙ sym (
                      find_row-perm merchant_key conn.merchants (s.rows conn.merchants) n
                        (s.rows-Perm conn.merchants) is.merchants_distinct)
                  ∙ find_merchant-writes _ ws n,
              mnemonic-writes _ ws,
            ),
          ),
        ),
      )
