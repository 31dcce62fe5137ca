-- ===== src/Service/Finalize.antt =====
-- What the service of registry/service.rs serves after a finalization.
use veiled.Prelude.{
  ℕ, ◌%◌, ◌^◌, ◌≡◌, refl, sym, ap, ◌∙◌, arith, Bool, true, false, ◌==◌, length, Bytes, none, some,
  list_eq, nat_eq, list_beq_iff, if◌then◌else◌, Outcome, ok, err, panic, ok_or, ◌>>=◌, ok_injective,
  guard_passes, bind_inverts, bind-ok,
}
use veiled.Prelude.Map
use veiled.Prelude.Map.{get-insert}
use veiled.Crypto.{Crypto}
use veiled.Bitcoin.{Bitcoin}
use veiled.Crs.{setup as crs_setup}
use veiled.Crs.Codec.{to_bytes}
use veiled.Registry.{Registry, setup, create_anonymity_set, beneficiary_count}
use veiled.Registry.Anchor.{create_anonymity_set_only_id}
use veiled.Db.Keys.{set_finalized}
use veiled.Service.Store
use veiled.Service.Store.{
  Db, RegistryStore, ActiveSet, StoreError, set_not_found, null_outpoint, fund, store_set,
  create_tx, run,
}
use veiled.Service.Handlers.{
  Config, internal, invalid_argument, not_found, ServiceState, status_of, pad_set, set_response,
  commit_set, finalize_set, finalization_message, get_crs, get_anonymity_set,
}

module _ ⦃c : Crypto⦄ where
  -- What `store_set` leaves when it returns an id.
  store_set-ok :
      (store : RegistryStore) (reg : Registry) (capacity sats : ℕ) (m : Outcome StoreError Bytes)
      (txid : Bytes)
      → (store_set store reg capacity sats m).1 ≡ ok txid
      → Map.get (store_set store reg capacity sats m).0.0.active_sets txid
        ≡ some (record {
          registry = reg;
          beneficiary_capacity = capacity;
          sats_per_user = sats;
          finalized = true;
        })
  unfolding store_set
  store_set-ok store reg capacity sats (ok t) txid e =
      let (_, (_, same)) = bind_inverts (run store.db (set_finalized t (some t))).1 _ e in
      get-insert store.active_sets t txid _
      ∙ ap
          (λ b.
            if b
            then some (record {
              registry = reg;
              beneficiary_capacity = capacity;
              sats_per_user = sats;
              finalized = true;
            })
            else Map.get store.active_sets txid)
          ((list_beq_iff t txid).1 (ok_injective same))
  store_set-ok store reg capacity sats (err x) txid e = absurd (ground arith)
  store_set-ok store reg capacity sats panic txid e = absurd (ground arith)

  module _ ⦃b : Bitcoin⦄ (config : Config) (state : ServiceState) where
    -- The registry that is stored.
    abbrev pub sealed : Registry
    sealed = (create_anonymity_set (setup state.registry) null_outpoint).0

    abbrev pub sealed_set : ActiveSet
    sealed_set = record {
      registry = sealed;
      beneficiary_capacity = config.beneficiary_capacity;
      sats_per_user = config.min_sats_per_user;
      finalized = true;
    }

    commit_set-stores :
        (txid : Bytes)
        → (commit_set config state).1 ≡ ok txid
        → Map.get (commit_set config state).0.store.active_sets txid ≡ some sealed_set
    unfolding commit_set create_tx
    commit_set-stores txid e =
        store_set-ok state.store sealed config.beneficiary_capacity config.min_sats_per_user
          (fund state.store config.beneficiary_capacity config.min_sats_per_user
            (create_anonymity_set (setup state.registry) null_outpoint).1)
          txid (status_ok _ e)
      where
        status_ok : (m : Outcome StoreError Bytes) → status_of internal m ≡ ok txid → m ≡ ok txid
        status_ok (ok t) h = ap ok (ok_injective h)
        status_ok (err x) h = absurd (ground arith)
        status_ok panic h = absurd (ground arith)

    finalize_set-commits :
        (set_id txid : Bytes)
        → (finalize_set config state set_id).1 ≡ ok txid
        → finalize_set config state set_id ≡ commit_set config state
    unfolding finalize_set
    finalize_set-commits set_id txid e = by_length (length set_id == 32) e
      where
        by_length :
            (good : Bool)
            → (if good then commit_set config state else (state, err invalid_argument)).1 ≡ ok txid
            → (if good then commit_set config state else (state, err invalid_argument))
              ≡ commit_set config state
        by_length true h = refl
        by_length false h = absurd (ground arith)

    finalize_set-stores :
        (set_id txid : Bytes)
        → (finalize_set config state set_id).1 ≡ ok txid
        → Map.get (finalize_set config state set_id).0.store.active_sets txid ≡ some sealed_set
    finalize_set-stores set_id txid e =
        let committed = finalize_set-commits set_id txid e in
        ap (λ t. Map.get t.0.store.active_sets txid) committed
        ∙ commit_set-stores txid (sym (ap (λ t. t.1) committed) ∙ e)

    -- After a finalization that returns a transaction id of 32 bytes, the service serves under this
    -- id the CRS of all merchants registered so far and the padded pending set, with its size.
    pub finalize_set-serves :
        (dim : ℕ) (set_id txid : Bytes)
        → (finalize_set config state set_id).1 ≡ ok txid
        → length txid ≡ 32
        → (get_crs (finalize_set config state set_id).0 txid
            ≡ ok (to_bytes (crs_setup state.registry.merchants state.registry.set_size)))
          × (get_anonymity_set dim (finalize_set config state set_id).0 txid
              ≡ ok (record {
                commitments = pad_set (2 ^ dim) state.registry.anonymity_set;
                finalized = true;
                count = length state.registry.anonymity_set % 2 ^ 32;
                capacity = config.beneficiary_capacity % 2 ^ 32;
              }))
    unfolding get_crs get_anonymity_set Store.get_crs Store.get_anonymity_set set_response
        beneficiary_count setup
    finalize_set-serves dim set_id txid e long =
        let stored = finalize_set-stores set_id txid e in
        let good : (length txid == 32) ≡ true = ground arith in
        let only_id = create_anonymity_set_only_id (setup state.registry) null_outpoint in
        (
          guard_passes invalid_argument _ good
              ∙ bind-ok _ (
                  ap
                    (λ o.
                      status_of not_found
                        (ok_or o set_not_found >>= λ active_set. ok active_set.registry))
                    stored)
              ∙ ap (λ r. ok (to_bytes r.crs)) only_id,
          guard_passes invalid_argument _ good
              ∙ bind-ok _ (ap (λ o. status_of not_found (ok_or o set_not_found)) stored)
              ∙ ap
                  (λ r. ok (record {
                    commitments = pad_set (2 ^ dim) r.anonymity_set;
                    finalized = true;
                    count = length r.anonymity_set % 2 ^ 32;
                    capacity = config.beneficiary_capacity % 2 ^ 32;
                  }))
                  only_id,
        )

    -- A subscriber to the transaction id gets the same set.
    pub finalize_set-message :
        (dim : ℕ) (set_id txid : Bytes)
        → (finalize_set config state set_id).1 ≡ ok txid
        → finalization_message dim (finalize_set config state set_id).0 txid
          ≡ some (record {
            commitments = pad_set (2 ^ dim) state.registry.anonymity_set;
            finalized = true;
            count = length state.registry.anonymity_set % 2 ^ 32;
            capacity = config.beneficiary_capacity % 2 ^ 32;
          })
    unfolding finalization_message set_response beneficiary_count setup
    finalize_set-message dim set_id txid e =
        let stored = finalize_set-stores set_id txid e in
        ap (λ o. elim o [ none ↦ none | some active_set ↦ some (set_response dim active_set true) ])
          stored
        ∙ ap
            (λ r. some (record {
              commitments = pad_set (2 ^ dim) r.anonymity_set;
              finalized = true;
              count = length r.anonymity_set % 2 ^ 32;
              capacity = config.beneficiary_capacity % 2 ^ 32;
            }))
            (create_anonymity_set_only_id (setup state.registry) null_outpoint)
