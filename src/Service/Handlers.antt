-- ===== src/Service/Handlers.antt =====
-- registry/service.rs: the handlers of the gRPC service, each from the state of the service (the
-- store and the registry, each behind its lock) and the fields of a request to the next state and
-- the response.
use veiled.Prelude.{
  ℕ, ◌-◌, ◌%◌, ◌^◌, Bool, true, not, leb, ◌==◌, list_eq, nat_eq, contains, List, [], ◌∷◌, ◌++◌,
  length, map, replicate, Option, none, some, Bytes, Outcome, ok, err, panic, guard, ◌>>=◌, ◌>>◌,
  on_ok, if◌then◌else◌,
}
use veiled.Prelude.Map
use veiled.Crypto.{Crypto}
use veiled.Bitcoin.{Bitcoin, OutPoint}
use veiled.Types.{Commitment}
use veiled.Merchant
use veiled.Merchant.{Merchant}
use veiled.Crs.Codec.{to_bytes}
use veiled.Registry
use veiled.Registry.{Registry, setup, add_beneficiary, beneficiary_count}
use veiled.Service.Wallet.{WalletError, verify_payment}
use veiled.Service.Store
use veiled.Service.Store.{StoreError, RegistryStore, ActiveSet, MerchantInfo, create_tx}

pub record Config : Type 0 where
  pub min_sats_per_user : ℕ
  pub merchant_registration_fee : ℕ
  pub beneficiary_capacity : ℕ
  pub merchant_capacity : ℕ

-- `Config::default()`
abbrev pub default_config : Config
default_config = record {
  min_sats_per_user = 1000;
  merchant_registration_fee = 3000;
  beneficiary_capacity = 4;
  merchant_capacity = 2;
}

-- The statuses that the handlers return.
pub data Status : Type 0 where
  invalid_argument set_is_full beneficiary_exists : Status
  merchant_exists internal not_found : StoreError → Status
  payment_failed : WalletError → Status

pub record GetAnonymitySetResponse : Type 0 where
  pub commitments : List Bytes
  pub finalized : Bool
  pub count : ℕ
  pub capacity : ℕ

pub record MerchantEntry : Type 0 where
  pub name : Bytes
  pub origin : Bytes
  pub credential_generator : Bytes

-- `txid_bytes.reverse()`
abbrev pub reverse_onto : Bytes → Bytes → Bytes
reverse_onto acc [] = acc
reverse_onto acc (b ∷ bs) = reverse_onto (b ∷ acc) bs

unfoldable pub outpoint_of : Bytes → ℕ → Outcome Status OutPoint
outpoint_of funding_txid funding_vout = do
  guard (length funding_txid == 32) invalid_argument
  ok (record { txid = reverse_onto [] funding_txid; vout = funding_vout })

-- `map_err`
abbrev pub status_of {ℓ κ} :
    {E : Type ℓ} {A : Type κ} → (E → Status) → Outcome E A → Outcome Status A
status_of f (ok a) = ok a
status_of f (err e) = err (f e)
status_of f panic = panic

-- `while commitments.len() < N { commitments.push(last.clone()) }`
abbrev pub last_commitment : Commitment → List Commitment → Commitment
last_commitment x [] = x
last_commitment x (y ∷ ys) = last_commitment y ys

unfoldable pub pad_set : ℕ → List Commitment → List Commitment
pad_set n [] = []
pad_set n (x ∷ xs) = (x ∷ xs) ++ replicate (n - length (x ∷ xs)) (last_commitment x xs)

module _ ⦃c : Crypto⦄ where
  pub record ServiceState : Type 0 where
    pub store : RegistryStore
    pub registry : Registry

  -- The second half of `register_merchant`, after the store has let go of its lock.
  unfoldable pub complete_merchant : ServiceState → Bytes → Bytes → ServiceState × Outcome Status ℕ
  complete_merchant state name origin = on_ok state (Merchant.new name origin) (λ merchant.
      let (registry, id) = Registry.add_merchant state.registry merchant in
      (record state { registry = registry }, id % 2 ^ 32))

  -- What follows the answer of the store.
  unfoldable pub register_added :
      ServiceState → Bytes → Bytes → Outcome StoreError (Unit {0}) → ServiceState × Outcome Status ℕ
  register_added state name origin (ok _) = complete_merchant state name origin
  register_added state name origin (err e) = (state, err (merchant_exists e))
  register_added state name origin panic = (state, panic)

  -- What follows the reading of the outpoint.
  unfoldable pub register_at :
      Config
      → ServiceState
      → Bytes
      → Bytes
      → Bytes
      → Bytes
      → Outcome Status OutPoint
      → ServiceState × Outcome Status ℕ
  register_at config state name origin email phone (ok outpoint) =
      let (store, added) =
        Store.add_merchant state.store name origin email phone outpoint
          config.merchant_registration_fee in
      register_added (record state { store = store }) name origin added
  register_at config state name origin email phone (err e) = (state, err e)
  register_at config state name origin email phone panic = (state, panic)

  unfoldable pub register_merchant :
      Config
      → ServiceState
      → Bytes
      → Bytes
      → Bytes
      → Bytes
      → Bytes
      → ℕ
      → ServiceState × Outcome Status ℕ
  register_merchant config state name origin email phone funding_txid funding_vout =
      register_at config state name origin email phone (outpoint_of funding_txid funding_vout)

  -- The checks of `register_beneficiary`, which give the commitment and the output.
  unfoldable pub admit_beneficiary :
      Config → ServiceState → Bytes → Bytes → ℕ → Outcome Status OutPoint
  admit_beneficiary config state phi funding_txid funding_vout = do
    guard (length phi == 33) invalid_argument
    outpoint ← outpoint_of funding_txid funding_vout
    status_of payment_failed (verify_payment state.store.wallet outpoint config.min_sats_per_user)
    guard (not (leb config.beneficiary_capacity (beneficiary_count state.registry))) set_is_full
    guard (not (contains state.registry.anonymity_set phi)) beneficiary_exists
    ok outpoint

  unfoldable pub register_beneficiary :
      Config → ServiceState → Bytes → Bytes → ℕ → ServiceState × Outcome Status ℕ
  register_beneficiary config state phi funding_txid funding_vout =
      on_ok state (admit_beneficiary config state phi funding_txid funding_vout) (λ outpoint.
        let (registry, index) = add_beneficiary state.registry phi outpoint in
        (record state { registry = registry }, index % 2 ^ 32))

  -- `setup`, then `create_tx`.
  unfoldable pub commit_set :
      ⦃b : Bitcoin⦄ → Config → ServiceState → ServiceState × Outcome Status Bytes
  commit_set config state =
      let ((store, registry), txid) =
        create_tx state.store (setup state.registry) config.beneficiary_capacity
          config.min_sats_per_user in
      (record { store = store; registry = registry }, status_of internal txid)

  -- The set id of the request is only checked for its length; the response has the transaction id.
  unfoldable pub finalize_set :
      ⦃b : Bitcoin⦄ → Config → ServiceState → Bytes → ServiceState × Outcome Status Bytes
  finalize_set config state set_id =
      if length set_id == 32 then commit_set config state else (state, err invalid_argument)

  unfoldable pub get_merchants : ServiceState → List MerchantEntry
  get_merchants state =
      map
        (λ (key, info). record {
          name = info.merchant.name.text;
          origin = info.merchant.origin;
          credential_generator = info.merchant.credential_generator;
        })
        state.store.merchant_pool

  unfoldable pub get_crs : ServiceState → Bytes → Outcome Status Bytes
  get_crs state set_id = do
    guard (length set_id == 32) invalid_argument
    registry ← status_of not_found (Store.get_crs state.store set_id)
    ok (to_bytes registry.crs)

  -- The response for a set, padded to N = 2^M commitments.
  unfoldable pub set_response : ℕ → ActiveSet → Bool → GetAnonymitySetResponse
  set_response dim active_set finalized = record {
    commitments = pad_set (2 ^ dim) active_set.registry.anonymity_set;
    finalized = finalized;
    count = beneficiary_count active_set.registry % 2 ^ 32;
    capacity = active_set.beneficiary_capacity % 2 ^ 32;
  }

  unfoldable pub get_anonymity_set :
      ℕ → ServiceState → Bytes → Outcome Status GetAnonymitySetResponse
  get_anonymity_set dim state set_id = do
    guard (length set_id == 32) invalid_argument
    active_set ← status_of not_found (Store.get_anonymity_set state.store set_id)
    ok (set_response dim active_set active_set.finalized)

  unfoldable pub get_registry_address : ServiceState → Bytes → Outcome Status (Bytes × Bytes)
  get_registry_address state set_id = do
    guard (length set_id == 32) invalid_argument
    status_of not_found (Store.get_registry_address state.store set_id)

  unfoldable pub get_fees : Config → ℕ × ℕ
  get_fees config = (config.min_sats_per_user, config.merchant_registration_fee)

  -- The secret key of the next registry is what the random source gives.
  unfoldable pub reset : Config → ServiceState → Bytes → ServiceState
  reset config state secret_key = record {
    store = record (state.store) { merchant_pool = []; active_sets = [] };
    registry = Registry.new config.beneficiary_capacity config.min_sats_per_user secret_key;
  }

  -- The message that a subscriber gets once the set is stored.
  unfoldable pub finalization_message : ℕ → ServiceState → Bytes → Option GetAnonymitySetResponse
  finalization_message dim state set_id = elim (Map.get state.store.active_sets set_id) [
    | none ↦ none
    | some active_set ↦ some (set_response dim active_set true)
  ]
