-- ===== src/Examples/Clients.antt =====
-- Two merchants that build the CRS of their registry, and a client of a service that finalizes a set.
use veiled.Prelude.{ap, some, replicate, ok, err, arith, ◌^◌, ◌≡◌, refl, codes, [], ◌∷◌, none}
use mathlib.Core.List.Permᴰ.{swap}
use veiled.Crypto.Toy.{toy}
use veiled.Merchant.{Merchant}
use veiled.Registry
use veiled.Registry.{Registry, add_merchant, setup}
use veiled.Registry.Lifecycle.{new-IsWellFormed, add_merchant-IsWellFormed}
use veiled.Registry.{anchor, create_anonymity_set}
use veiled.Registry.Merkle.{
  merkle_root, climb, next_level, pad_leaves, leaves, next_power_of_two, power_from,
}
use veiled.Service.Wallet.{verify_payment, fund_and_broadcast}
use veiled.Service.Store
use veiled.Service.Store.{create_tx, store_set, fund}
use veiled.Service.Handlers
use veiled.Service.Handlers.{
  default_config, ServiceState, register_beneficiary, finalize_set, commit_set, pad_set,
  admit_beneficiary, outpoint_of, finalization_message,
}
use veiled.Flow.{published}
use veiled.Client.{MerchantState, build_crs}
use veiled.Client.Requests
use veiled.Client.Requests.{
  RegClient, wait_for_finalization, commitments_from, commitment_at, data_loss,
}
use veiled.Client.Finalized.{Serves, answer, wait_for_finalization-finalize_set}
use veiled.Examples.Serving.{toy_bitcoin, with_one, txid}
use veiled.Client.Order.{build_crs-setup}
use veiled.Examples.Data.{merchant_of, cafe}

abbrev empty : Registry
empty = Registry.new 4 1000 (1 ∷ [])

abbrev shop : Merchant
shop = merchant_of (codes "shop") 1

abbrev both : Registry
both = (add_merchant (add_merchant empty shop).0 cafe).0

abbrev state_of : Merchant → MerchantState
state_of m = record { merchant = m; crs = none; anonymity_set = none }

build_crs-setup_example :
    build_crs (state_of cafe ∷ state_of shop ∷ []) both.set_size ≡ (setup both).crs
unfolding add_merchant Registry.new
build_crs-setup_example =
    build_crs-setup both (state_of cafe ∷ state_of shop ∷ []) (state_of shop ∷ state_of cafe ∷ [])
      (add_merchant-IsWellFormed (add_merchant empty shop).0 cafe
        (add_merchant-IsWellFormed empty shop (new-IsWellFormed 4 1000 (1 ∷ []))))
      refl (swap refl refl)

-- The service of Examples/Serving.antt after its finalization, and the stub over it.
abbrev final : ServiceState
final = (finalize_set default_config with_one txid).0

abbrev client : RegClient
client = record {
  get_fees = some (Handlers.get_fees default_config);
  get_registry_address = λ id. answer (Handlers.get_registry_address final id);
  register_merchant = λ request. some 1;
  get_merchants = some (Handlers.get_merchants final);
  register_beneficiary = λ request. some 0;
  finalize_set = λ id. some txid;
  get_crs = λ id. answer (Handlers.get_crs final id);
  subscribe_set_finalization = λ id. some (some (finalization_message 2 final id));
}

client-Serves : Serves client 2 final
client-Serves = record { crs = λ id. refl; set = λ id r wide e. ap (λ m. some (some m)) e }

wait_for_finalization-finalize_set_example :
    (Requests.get_crs client (replicate 32 7) ≡ ok (published with_one))
    × (wait_for_finalization client (replicate 32 7)
        ≡ ok (pad_set (2 ^ 2) with_one.registry.anonymity_set))
unfolding finalize_set commit_set create_tx store_set fund create_anonymity_set anchor
    fund_and_broadcast register_beneficiary admit_beneficiary outpoint_of verify_payment
    Registry.add_beneficiary Registry.beneficiary_count Registry.new Registry.setup Store.new
    merkle_root climb next_level pad_leaves leaves next_power_of_two power_from
wait_for_finalization-finalize_set_example =
    wait_for_finalization-finalize_set client default_config with_one 2 txid (replicate 32 7) refl
      refl (omega arith) (omega arith) tt (refl, tt) client-Serves

-- The commitment that is not 33 bytes wide is named by its index.
data_loss_test : commitments_from 0 (replicate 33 2 ∷ [] ∷ []) ≡ err (data_loss 1)
unfolding commitments_from commitment_at
data_loss_test = refl
