-- ===== src/Db/Invariant.antt =====
-- What the write operations of registry/db.rs keep.
use veiled.Prelude.{
  ◌<◌, ◌^◌, ◌<◌, ℕ, suc, ◌≡◌, refl, ap, true, Bool-cases, ◌&&◌, inl, inr, List, [], ◌∷◌, Option,
  none, some, Option-cases, map, length, Bytes, list_eq, nat_eq, pair_eq, ◌===◌, contains, All,
  All-weaken, arith,
}
use veiled.Hex.{Hex}
use veiled.Db.{
  Commitment, finalize_rows, wallet_key, merchant_key, set_key, MerchantRow, SetRecord,
  SetMerchantRecord, CommitmentRecord, Connection, set_merchant_key, commitment_key, merchant_names,
  set_ids, as_i64, insert_or_ignore, insert_referring, open_db, create_tables, save_merchant,
  save_set_merchants, save_set, save_commitment, mark_set_finalized, save_wallet_mnemonic,
}
use veiled.Db.Keys.{
  IsSetRecord, Write, merchant_saved, set_saved, commitment_saved, mnemonic_saved, set_finalized,
  IsWrite, write, writes, IsSetId, IsDatabase, Refers, IsCommitmentRecord, Distinct-insert,
  All-insert, contains-insert, insert_referring_inserts,
}

module _ ⦃x : Hex⦄ where
  save_merchant-IsDatabase :
      (conn : Connection) (name origin email phone : Bytes)
      → IsDatabase conn
      → IsDatabase (save_merchant conn name origin email phone)
  unfolding save_merchant
  save_merchant-IsDatabase conn name origin email phone h =
      let row : MerchantRow = record {
        name = name;
        origin = origin;
        email = email;
        phone = phone;
      } in
      record {
        merchants_distinct = Distinct-insert merchant_key conn.merchants row h.merchants_distinct;
        sets_distinct = h.sets_distinct;
        set_merchants_distinct = h.set_merchants_distinct;
        commitments_distinct = h.commitments_distinct;
        wallet_distinct = h.wallet_distinct;
        set_merchants_refer =
            All-weaken conn.set_merchants
              (λ m (a, b). (a, contains-insert merchant_key conn.merchants row m.merchant_name b))
              h.set_merchants_refer;
        commitments_refer = h.commitments_refer;
        sets_sized = h.sets_sized;
        sets_bounded = h.sets_bounded;
        positions_bounded = h.positions_bounded;
        one_wallet = h.one_wallet;
        commitments_sized = h.commitments_sized;
      }

  -- One more set.
  insert_set-IsDatabase :
      (conn : Connection) (row : SetRecord)
      → IsSetId row.set_id
      → IsSetRecord row
      → IsDatabase conn
      → IsDatabase (record conn { sets = insert_or_ignore set_key conn.sets row })
  insert_set-IsDatabase conn row sized bounded h = record {
    merchants_distinct = h.merchants_distinct;
    sets_distinct = Distinct-insert set_key conn.sets row h.sets_distinct;
    set_merchants_distinct = h.set_merchants_distinct;
    commitments_distinct = h.commitments_distinct;
    wallet_distinct = h.wallet_distinct;
    set_merchants_refer =
        All-weaken conn.set_merchants
          (λ m (a, b). (contains-insert set_key conn.sets row m.set_id a, b)) h.set_merchants_refer;
    commitments_refer =
        All-weaken conn.commitments (λ c a. contains-insert set_key conn.sets row c.set_id a)
          h.commitments_refer;
    sets_sized = All-insert set_key (λ r. IsSetId r.set_id) conn.sets row h.sets_sized sized;
    sets_bounded = All-insert set_key IsSetRecord conn.sets row h.sets_bounded bounded;
    positions_bounded = h.positions_bounded;
    one_wallet = h.one_wallet;
    commitments_sized = h.commitments_sized;
  }

  -- One more row of set_merchants, that refers.
  insert_set_merchant-IsDatabase :
      (conn : Connection) (row : SetMerchantRecord)
      → Refers conn row
      → row.position < 2 ^ 64
      → IsDatabase conn
      → IsDatabase
          (record conn { set_merchants = insert_or_ignore set_merchant_key conn.set_merchants row })
  insert_set_merchant-IsDatabase conn row refers bounded h = record {
    merchants_distinct = h.merchants_distinct;
    sets_distinct = h.sets_distinct;
    set_merchants_distinct =
        Distinct-insert set_merchant_key conn.set_merchants row h.set_merchants_distinct;
    commitments_distinct = h.commitments_distinct;
    wallet_distinct = h.wallet_distinct;
    set_merchants_refer =
        All-insert set_merchant_key (Refers conn) conn.set_merchants row h.set_merchants_refer
          refers;
    commitments_refer = h.commitments_refer;
    sets_sized = h.sets_sized;
    sets_bounded = h.sets_bounded;
    positions_bounded =
        All-insert set_merchant_key (λ r. r.position < 2 ^ 64) conn.set_merchants row
          h.positions_bounded bounded;
    one_wallet = h.one_wallet;
    commitments_sized = h.commitments_sized;
  }

  save_set_merchants-IsDatabase :
      (conn : Connection) (id : Bytes) (pos : ℕ) (names : List Bytes)
      → IsDatabase conn
      → IsDatabase (save_set_merchants conn id pos names).0
  unfolding save_set_merchants
  save_set_merchants-IsDatabase conn id pos [] h = h
  save_set_merchants-IsDatabase conn id pos (name ∷ names) h =
      let refers = contains (set_ids conn) id && contains (merchant_names conn) name in
      let row : SetMerchantRecord = record {
        set_id = id;
        position = as_i64 pos;
        merchant_name = name;
      } in
      elim (Option-cases (insert_referring set_merchant_key refers conn.set_merchants row)) [
        | inl e ↦ rw (save_set_merchants, e) h
        | inr (table, e) ↦
            rw (save_set_merchants, e)
              (save_set_merchants-IsDatabase (record conn { set_merchants = table }) id (suc pos)
                names
                (elim (insert_referring_inserts set_merchant_key refers conn.set_merchants table row
                  e) [
                    | inl same ↦ rw same h
                    | inr (r, same) ↦ rw same (
                        insert_set_merchant-IsDatabase conn row
                          (ground (arith, r), ground (arith, r)) (omega arith) h)
                  ]))
      ]

  save_set-IsDatabase :
      (conn : Connection) (id : Bytes) (capacity sats : ℕ) (names : List Bytes)
      → length id ≡ 32
      → IsDatabase conn
      → IsDatabase (save_set conn id capacity sats names).0
  unfolding save_set
  save_set-IsDatabase conn id capacity sats names sized h =
      save_set_merchants-IsDatabase _ (x.encode id) 0 names (
        insert_set-IsDatabase conn _ (id, (refl, sized)) (omega arith, (omega arith, omega arith))
          h)

  insert_commitment-IsDatabase :
      (conn : Connection) (row : CommitmentRecord) (table : List CommitmentRecord)
      → IsCommitmentRecord row
      → insert_referring commitment_key (contains (set_ids conn) row.set_id) conn.commitments row
        ≡ some table
      → IsDatabase conn
      → IsDatabase (record conn { commitments = table })
  insert_commitment-IsDatabase conn row table sized e h =
      elim (insert_referring_inserts commitment_key (contains (set_ids conn) row.set_id)
        conn.commitments table row e) [
          | inl same ↦ rw same h
          | inr (r, same) ↦ rw same (record {
            merchants_distinct = h.merchants_distinct;
            sets_distinct = h.sets_distinct;
            set_merchants_distinct = h.set_merchants_distinct;
            commitments_distinct =
                Distinct-insert commitment_key conn.commitments row h.commitments_distinct;
            wallet_distinct = h.wallet_distinct;
            set_merchants_refer = h.set_merchants_refer;
            commitments_refer =
                All-insert commitment_key (λ c. contains (set_ids conn) c.set_id ≡ true)
                  conn.commitments row h.commitments_refer r;
            sets_sized = h.sets_sized;
            sets_bounded = h.sets_bounded;
            positions_bounded = h.positions_bounded;
            one_wallet = h.one_wallet;
            commitments_sized =
                All-insert commitment_key IsCommitmentRecord conn.commitments row
                  h.commitments_sized sized;
          })
        ]

  -- UPDATE keeps the keys.
  set_ids-mark_set_finalized :
      (rows : List SetRecord) (id : Bytes) (txid : Option Bytes)
      → map set_key (finalize_rows rows id txid) ≡ map set_key rows
  set_ids-mark_set_finalized [] id txid = refl
  set_ids-mark_set_finalized (row ∷ rows) id txid = elim (Bool-cases (row.set_id === x.encode id)) [
    | inl e ↦ rw e (ap (◌∷◌ row.set_id) (set_ids-mark_set_finalized rows id txid))
    | inr e ↦ rw e (ap (◌∷◌ row.set_id) (set_ids-mark_set_finalized rows id txid))
  ]

  sets_sized-mark_set_finalized :
      (rows : List SetRecord) (id : Bytes) (txid : Option Bytes)
      → All (λ (row : SetRecord). IsSetId row.set_id) rows
      → All (λ (row : SetRecord). IsSetId row.set_id) (finalize_rows rows id txid)
  sets_sized-mark_set_finalized [] id txid h = tt
  sets_sized-mark_set_finalized (row ∷ rows) id txid (p, h) =
      elim (Bool-cases (row.set_id === x.encode id)) [
        | inl e ↦ rw e (p, sets_sized-mark_set_finalized rows id txid h)
        | inr e ↦ rw e (p, sets_sized-mark_set_finalized rows id txid h)
      ]

  sets_bounded-mark_set_finalized :
      (rows : List SetRecord) (id : Bytes) (txid : Option Bytes)
      → All IsSetRecord rows
      → All IsSetRecord (finalize_rows rows id txid)
  sets_bounded-mark_set_finalized [] id txid h = tt
  sets_bounded-mark_set_finalized (row ∷ rows) id txid ((a, (b, c)), h) =
      elim (Bool-cases (row.set_id === x.encode id)) [
        | inl e ↦ rw e ((a, (b, omega arith)), sets_bounded-mark_set_finalized rows id txid h)
        | inr e ↦ rw e ((a, (b, c)), sets_bounded-mark_set_finalized rows id txid h)
      ]

  mark_set_finalized-IsDatabase :
      (conn : Connection) (id : Bytes) (txid : Option Bytes)
      → IsDatabase conn
      → IsDatabase (mark_set_finalized conn id txid)
  unfolding mark_set_finalized
  mark_set_finalized-IsDatabase conn id txid h =
      let same = set_ids-mark_set_finalized conn.sets id txid in
      record {
        merchants_distinct = h.merchants_distinct;
        sets_distinct = rw same h.sets_distinct;
        set_merchants_distinct = h.set_merchants_distinct;
        commitments_distinct = h.commitments_distinct;
        wallet_distinct = h.wallet_distinct;
        set_merchants_refer =
            All-weaken conn.set_merchants (λ m (a, b). (rw same a, b)) h.set_merchants_refer;
        commitments_refer = All-weaken conn.commitments (λ c a. rw same a) h.commitments_refer;
        sets_sized = sets_sized-mark_set_finalized conn.sets id txid h.sets_sized;
        sets_bounded = sets_bounded-mark_set_finalized conn.sets id txid h.sets_bounded;
        positions_bounded = h.positions_bounded;
        one_wallet = h.one_wallet;
        commitments_sized = h.commitments_sized;
      }

  save_wallet_mnemonic-IsDatabase :
      (conn : Connection) (mnemonic : Bytes)
      → IsDatabase conn
      → IsDatabase (save_wallet_mnemonic conn mnemonic)
  unfolding save_wallet_mnemonic
  save_wallet_mnemonic-IsDatabase conn mnemonic h = record {
    merchants_distinct = h.merchants_distinct;
    sets_distinct = h.sets_distinct;
    set_merchants_distinct = h.set_merchants_distinct;
    commitments_distinct = h.commitments_distinct;
    wallet_distinct =
        Distinct-insert wallet_key conn.wallet (record { id = 1; mnemonic = mnemonic })
          h.wallet_distinct;
    set_merchants_refer = h.set_merchants_refer;
    commitments_refer = h.commitments_refer;
    sets_sized = h.sets_sized;
    sets_bounded = h.sets_bounded;
    positions_bounded = h.positions_bounded;
    one_wallet =
        All-insert wallet_key (λ r. r.id ≡ 1) conn.wallet (record { id = 1; mnemonic = mnemonic })
          h.one_wallet refl;
    commitments_sized = h.commitments_sized;
  }

  save_commitment-IsDatabase :
      (conn : Connection) (id : Bytes) (idx : ℕ) (phi : Commitment) (txid : Bytes) (vout : ℕ)
      → IsWrite (commitment_saved id idx phi txid vout)
      → IsDatabase conn
      → IsDatabase (save_commitment conn id idx phi txid vout).0
  unfolding save_commitment
  save_commitment-IsDatabase conn id idx phi txid vout (t, (s1, (s2, s3))) h =
      let row : CommitmentRecord = record {
        set_id = x.encode id;
        idx = as_i64 idx;
        phi = phi;
        txid = txid;
        vout = vout;
      } in
      elim (Option-cases (
        insert_referring commitment_key (contains (set_ids conn) row.set_id) conn.commitments
          row)) [
            | inl e ↦ rw (save_commitment, e) h
            | inr (table, e) ↦
                rw (save_commitment, e)
                  (insert_commitment-IsDatabase conn row table
                    ((id, (refl, t)), (s1, (s2, (s3, omega arith)))) e h)
          ]

  write-IsDatabase :
      (conn : Connection) (w : Write) → IsWrite w → IsDatabase conn → IsDatabase (write conn w)
  write-IsDatabase conn (merchant_saved name origin email phone) t h =
      save_merchant-IsDatabase conn name origin email phone h
  write-IsDatabase conn (set_saved id capacity sats names) t h =
      save_set-IsDatabase conn id capacity sats names t h
  write-IsDatabase conn (commitment_saved id idx phi txid vout) t h =
      save_commitment-IsDatabase conn id idx phi txid vout t h
  write-IsDatabase conn (mnemonic_saved mnemonic) t h =
      save_wallet_mnemonic-IsDatabase conn mnemonic h
  write-IsDatabase conn (set_finalized id txid) t h = mark_set_finalized-IsDatabase conn id txid h

  pub writes-IsDatabase :
      (conn : Connection) (ws : List Write)
      → All IsWrite ws
      → IsDatabase conn
      → IsDatabase (writes conn ws)
  writes-IsDatabase conn [] t h = h
  writes-IsDatabase conn (w ∷ ws) (t, ts) h =
      writes-IsDatabase (write conn w) ws ts (write-IsDatabase conn w t h)

  -- Whatever is saved in a new database, in any order and with any keys, failed statements included:
  -- the primary keys of every table are distinct, every row names a set and a merchant that are
  -- there, set ids are texts of 32 bytes, phi and txid have 33 and 32 bytes, vout has 32 bits, the
  -- other numbers have 64, a set is finalized or not, and the mnemonic is in row 1.
  pub open_db-IsDatabase :
      (ws : List Write) → All IsWrite ws → IsDatabase (writes (open_db none) ws)
  unfolding open_db create_tables
  open_db-IsDatabase ws t = writes-IsDatabase _ ws t (record {
    merchants_distinct = tt;
    sets_distinct = tt;
    set_merchants_distinct = tt;
    commitments_distinct = tt;
    wallet_distinct = tt;
    set_merchants_refer = tt;
    commitments_refer = tt;
    sets_sized = tt;
    sets_bounded = tt;
    positions_bounded = tt;
    one_wallet = tt;
    commitments_sized = tt;
  })
