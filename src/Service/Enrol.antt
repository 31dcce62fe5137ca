-- ===== src/Service/Enrol.antt =====
-- `register_merchant` of registry/service.rs: what it leaves in the pool and in the registry, with each
-- result.
use veiled.Prelude.{
  ℕ, ◌+◌, ◌%◌, ◌^◌, ◌≡◌, [], ◌∷◌, ◌++◌, length, none, some, Bytes, list_eq, nat_eq, ◌===◌, Outcome,
  ok, err, panic, if◌then◌else◌,
}
use veiled.Prelude.Map
use veiled.Crypto.{Crypto}
use veiled.Bitcoin.{Bitcoin, OutPoint}
use veiled.Merchant
use veiled.Merchant.{Merchant}
use veiled.Registry.{Registry}
use veiled.Service.Wallet.{verify_payment}
use veiled.Service.Store
use veiled.Service.Store.{RegistryStore, StoreError, from_wallet}
use veiled.Service.Handlers.{Config, Status, ServiceState, outpoint_of, register_merchant}
use veiled.Client.Requests.{MerchantRequest}

module _ ⦃c : Crypto⦄ where
  -- The store after a registration: the payment was checked, the name was free and is taken by the
  -- merchant, and other names are as before.
  pub record Pooled (config : Config) (store next : RegistryStore) (name origin email phone : Bytes)
      (outpoint : OutPoint) : Type 0 where
    pub free : Map.get store.merchant_pool name ≡ none
    pub paid :
        from_wallet (verify_payment store.wallet outpoint config.merchant_registration_fee) ≡ ok tt
    pub pooled : Merchant
    pub made : Merchant.new {E = StoreError} name origin ≡ ok pooled
    pub pool :
        (n : Bytes)
        → Map.get next.merchant_pool n ≡ (
            if name === n
            then some (record { merchant = pooled; email = email; phone = phone })
            else Map.get store.merchant_pool n)
    pub sets : next.active_sets ≡ store.active_sets
    pub wallet : next.wallet ≡ store.wallet

  -- The registry after a registration: one more merchant at its end, whose number is returned.
  pub record Listed (reg next : Registry) (name origin : Bytes) (id : ℕ) : Type 0 where
    pub merchant : Merchant
    pub made : Merchant.new {E = Status} name origin ≡ ok merchant
    pub listed : next ≡ record reg {
      merchants = reg.merchants ++ record merchant { merchant_id = length reg.merchants + 1 } ∷ [];
    }
    pub number : id ≡ (length reg.merchants + 1) % 2 ^ 32

  -- The states before and after a call, for each result.
  abbrev pub Enrolled :
      Config → ServiceState → ServiceState → MerchantRequest → Outcome Status ℕ → Type 0
  Enrolled config state next a (ok id) =
      (op : OutPoint) × ((outpoint_of a.funding_txid a.funding_vout ≡ ok op)
        × (Pooled config state.store next.store a.name a.origin a.email a.phone op
            × Listed state.registry next.registry a.name a.origin id))
  Enrolled config state next a (err x) = next.registry ≡ state.registry
  Enrolled config state next a panic = next.registry ≡ state.registry

  abbrev pub register : Config → ServiceState → MerchantRequest → ServiceState × Outcome Status ℕ
  register config state a =
      register_merchant config state a.name a.origin a.email a.phone a.funding_txid a.funding_vout
