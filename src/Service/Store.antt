-- ===== src/Service/Store.antt =====
-- registry/store.rs: the pool of merchants and the finalized sets. The database is the statements of
-- registry/db.rs that it has run.
use veiled.Prelude.{
  ℕ, ◌*◌, ◌%◌, ◌^◌, ◌-◌, Bool, true, not, List, [], ◌∷◌, ◌++◌, Option, none, some, Bytes, list_eq,
  nat_eq, ◌===◌, replicate, get_elem?, ◌||◌, Outcome, ok, err, panic, ok_or, guard, expect, ◌>>=◌,
  ◌>>◌, if◌then◌else◌,
}
use veiled.Prelude.Map
use veiled.Prelude.Map.{Map}
use veiled.Crypto.{Crypto}
use veiled.Bitcoin.{Bitcoin, OutPoint}
use veiled.Merchant
use veiled.Merchant.{Merchant}
use veiled.Registry.{Registry, RegistryError, TaprootCommitment, create_anonymity_set}
use veiled.Db.Keys.{Write, merchant_saved, set_finalized}
use veiled.Service.Wallet.{
  RegistryWallet, WalletError, verify_payment, get_address, fund_and_broadcast,
}

-- `MerchantInfo` of registry/service.rs.
pub record MerchantInfo : Type 0 where
  pub merchant : Merchant
  pub email : Bytes
  pub phone : Bytes

-- The connection: whether a statement succeeds, and the statements that it has run, the first in front.
pub record Db : Type 0 where
  pub succeeds : Write → Bool
  pub statements : List Write

pub data StoreError : Type 0 where
  merchant_registered set_not_found db_error : StoreError
  wallet_error : WalletError → StoreError
  taproot_error : RegistryError → StoreError

-- `OutPoint::null()`
abbrev pub null_outpoint : OutPoint
null_outpoint = record { txid = replicate 32 0; vout = 2 ^ 32 - 1 }

-- `map_err`
abbrev pub from_wallet {ℓ} : {A : Type ℓ} → Outcome WalletError A → Outcome StoreError A
from_wallet (ok a) = ok a
from_wallet (err e) = err (wallet_error e)
from_wallet panic = panic

abbrev pub from_taproot {ℓ} : {A : Type ℓ} → Outcome RegistryError A → Outcome StoreError A
from_taproot (ok a) = ok a
from_taproot (err e) = err (taproot_error e)
from_taproot panic = panic

-- A call of registry/db.rs, when there is a database.
abbrev pub run : Option Db → Write → Option Db × Outcome StoreError (Unit {0})
run none w = (none, ok tt)
run (some db) w =
    if db.succeeds w
    then (some (record db { statements = db.statements ++ w ∷ [] }), ok tt)
    else (some db, err db_error)

module _ ⦃c : Crypto⦄ where
  pub record ActiveSet : Type 0 where
    pub registry : Registry
    pub beneficiary_capacity : ℕ
    pub sats_per_user : ℕ
    pub finalized : Bool

  pub record RegistryStore : Type 0 where
    pub merchant_pool : Map Bytes MerchantInfo
    pub active_sets : Map Bytes ActiveSet
    pub wallet : RegistryWallet
    pub db : Option Db

  unfoldable pub new : RegistryWallet → Option Db → RegistryStore
  new wallet db = record { merchant_pool = []; active_sets = []; wallet = wallet; db = db }

  -- The steps of `add_merchant` before the pool changes.
  unfoldable pub admit : RegistryStore → Bytes → Bytes → OutPoint → ℕ → Outcome StoreError Merchant
  admit store name origin outpoint required_fee = do
    guard (not (Map.contains_key store.merchant_pool name)) merchant_registered
    from_wallet (verify_payment store.wallet outpoint required_fee)
    Merchant.new name origin

  -- A merchant is in the pool before the database is asked.
  unfoldable pub add_merchant :
      RegistryStore
      → Bytes
      → Bytes
      → Bytes
      → Bytes
      → OutPoint
      → ℕ
      → RegistryStore × Outcome StoreError (Unit {0})
  add_merchant store name origin email phone outpoint required_fee =
      elim (admit store name origin outpoint required_fee) [
        | ok merchant ↦
            let info : MerchantInfo = record {
              merchant = merchant;
              email = email;
              phone = phone;
            } in
            let (db, result) = run store.db (merchant_saved name origin email phone) in
            (
              record store { merchant_pool = Map.insert store.merchant_pool name info; db = db },
              result,
            )
        | err e ↦ (store, err e)
        | panic ↦ (store, panic)
      ]

  unfoldable pub get_anonymity_set : RegistryStore → Bytes → Outcome StoreError ActiveSet
  get_anonymity_set store set_id = ok_or (Map.get store.active_sets set_id) set_not_found

  unfoldable pub get_registry_address : RegistryStore → Bytes → Outcome StoreError (Bytes × Bytes)
  get_registry_address store set_id =
      if (set_id === replicate 32 0) || Map.contains_key store.active_sets set_id
      then ok (get_address store.wallet)
      else err set_not_found

  unfoldable pub get_crs : RegistryStore → Bytes → Outcome StoreError Registry
  get_crs store set_id = do
    active_set ← ok_or (Map.get store.active_sets set_id) set_not_found
    ok active_set.registry

  -- The steps of `create_tx` up to the transaction id. Amounts are u64.
  unfoldable pub fund :
      ⦃b : Bitcoin⦄
      → RegistryStore
      → ℕ
      → ℕ
      → Outcome RegistryError TaprootCommitment
      → Outcome StoreError Bytes
  fund store beneficiary_capacity sats_per_user committed = do
    commitment ← from_taproot committed
    let output_amount = beneficiary_capacity * sats_per_user % 2 ^ 64
    output ← expect (get_elem? commitment.tx.output 0)
    from_wallet (fund_and_broadcast store.wallet output.script_pubkey output_amount)

  -- The set is stored under the transaction id before the database is asked. The text of the id, which
  -- the statement gets as well, is its bytes.
  unfoldable pub store_set :
      RegistryStore
      → Registry
      → ℕ
      → ℕ
      → Outcome StoreError Bytes
      → (RegistryStore × Registry) × Outcome StoreError Bytes
  store_set store registry beneficiary_capacity sats_per_user (ok txid) =
      let active_set : ActiveSet = record {
        registry = registry;
        beneficiary_capacity = beneficiary_capacity;
        sats_per_user = sats_per_user;
        finalized = true;
      } in
      let (db, result) = run store.db (set_finalized txid (some txid)) in
      (
        (
          record store { active_sets = Map.insert store.active_sets txid active_set; db = db },
          registry,
        ),
        (do result; ok txid),
      )
  store_set store registry beneficiary_capacity sats_per_user (err e) = ((store, registry), err e)
  store_set store registry beneficiary_capacity sats_per_user panic = ((store, registry), panic)

  unfoldable pub create_tx :
      ⦃b : Bitcoin⦄
      → RegistryStore
      → Registry
      → ℕ
      → ℕ
      → (RegistryStore × Registry) × Outcome StoreError Bytes
  create_tx store registry beneficiary_capacity sats_per_user =
      let (registry, committed) = create_anonymity_set registry null_outpoint in
      store_set store registry beneficiary_capacity sats_per_user
        (fund store beneficiary_capacity sats_per_user committed)
