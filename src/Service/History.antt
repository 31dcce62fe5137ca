-- ===== src/Service/History.antt =====
-- The states that the handlers of registry/service.rs reach, in every interleaving.
use veiled.Prelude.{ℕ, list_eq, nat_eq, Option, Bytes, Outcome, ok, err, panic}
use veiled.Crypto.{Crypto}
use veiled.Bitcoin.{Bitcoin, OutPoint}
use veiled.Registry
use veiled.Registry.{Registry, setup, add_beneficiary, beneficiary_count, create_anonymity_set}
use veiled.Service.Wallet.{RegistryWallet}
use veiled.Service.Store
use veiled.Service.Store.{Db, RegistryStore, StoreError, null_outpoint, fund, store_set, create_tx}
use veiled.Service.Handlers.{
  Config, Status, ServiceState, outpoint_of, complete_merchant, register_beneficiary,
  register_added, register_at, register_merchant, finalize_set, reset,
}
use veiled.Service.Bounds.{
  IsSound, new-IsSound, complete_merchant-IsSound, register_beneficiary-IsSound,
  finalize_set-IsSound,
}

module _ ⦃c : Crypto⦄ where
  -- The states of a service: from `new` on, each handler with any request. The two halves of
  -- `register_merchant`, between which the locks are free, are steps of their own: `stored` is the
  -- first with any outcome, `completed` the second.
  pub data Reachable ⦃b : Bitcoin⦄ (config : Config) : ServiceState → Type 0 where
    started :
        (wallet : RegistryWallet) (db : Option Db) (secret_key : Bytes)
        → Reachable config (record {
          store = Store.new wallet db;
          registry = Registry.new config.beneficiary_capacity config.min_sats_per_user secret_key;
        })
    stored :
        (state : ServiceState) (name origin email phone : Bytes) (outpoint : OutPoint)
        → Reachable config state
        → Reachable config (record state {
          store =
              (Store.add_merchant state.store name origin email phone outpoint
                config.merchant_registration_fee).0;
        })
    completed :
        (state : ServiceState) (name origin : Bytes)
        → Reachable config state
        → Reachable config (complete_merchant state name origin).0
    beneficiary :
        (state : ServiceState) (phi funding_txid : Bytes) (funding_vout : ℕ)
        → Reachable config state
        → Reachable config (register_beneficiary config state phi funding_txid funding_vout).0
    finalized :
        (state : ServiceState) (set_id : Bytes)
        → Reachable config state
        → Reachable config (finalize_set config state set_id).0
    was_reset :
        (state : ServiceState) (secret_key : Bytes)
        → Reachable config state
        → Reachable config (reset config state secret_key)

  -- In every reachable state the pending set has at most the configured number of commitments, each
  -- of 33 bytes and none twice, every commitment has an output, the merchants are numbered from 1 in
  -- order, and the CRS has a generator for each of its merchants.
  pub Reachable-IsSound :
      ⦃b : Bitcoin⦄ (config : Config) (state : ServiceState)
      → Reachable config state
      → IsSound config state.registry
  unfolding reset
  Reachable-IsSound config _ (started wallet db secret_key) = new-IsSound config secret_key
  Reachable-IsSound config _ (stored state name origin email phone op r) =
      Reachable-IsSound config state r
  Reachable-IsSound config _ (completed state name origin r) =
      complete_merchant-IsSound config state name origin (Reachable-IsSound config state r)
  Reachable-IsSound config _ (beneficiary state phi txid vout r) =
      register_beneficiary-IsSound config state phi txid vout (Reachable-IsSound config state r)
  Reachable-IsSound config _ (finalized state set_id r) =
      finalize_set-IsSound config state set_id (Reachable-IsSound config state r)
  Reachable-IsSound config _ (was_reset state secret_key r) = new-IsSound config secret_key

  -- The handler `register_merchant`, which lets go of the lock of the store before it takes that of
  -- the registry, leads from a reachable state to one that is reachable by the two halves as steps.
  pub register_merchant-Reachable :
      ⦃b : Bitcoin⦄ (config : Config) (state : ServiceState)
      (name origin email phone funding_txid : Bytes) (funding_vout : ℕ)
      → Reachable config state
      → Reachable config
          (register_merchant config state name origin email phone funding_txid funding_vout).0
  unfolding register_merchant register_at register_added
  register_merchant-Reachable config state name origin email phone txid vout r =
      by_outpoint (outpoint_of txid vout)
    where
      by_added :
          (op : OutPoint) (added : Outcome StoreError (Unit {0}))
          → Reachable config
              (register_added
                (record state {
                  store =
                      (Store.add_merchant state.store name origin email phone op
                        config.merchant_registration_fee).0;
                })
                name
                origin
                added).0
      by_added op (ok u) = completed _ name origin (stored state name origin email phone op r)
      by_added op (err e) = stored state name origin email phone op r
      by_added op panic = stored state name origin email phone op r

      by_outpoint :
          (o : Outcome Status OutPoint)
          → Reachable config (register_at config state name origin email phone o).0
      by_outpoint (ok op) =
          by_added op
            (Store.add_merchant state.store name origin email phone op
              config.merchant_registration_fee).1
      by_outpoint (err e) = r
      by_outpoint panic = r
