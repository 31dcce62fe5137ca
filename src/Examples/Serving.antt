-- ===== src/Examples/Serving.antt =====
-- A registry operator without a node, from its start to a finalized set.
use veiled.Prelude.{
  ◌≡◌, ◌↔◌, refl, arith, Bytes, [], ◌∷◌, take, some, none, replicate, length, codes, ok, list_eq,
  nat_eq,
}
use veiled.Crypto.Toy.{toy}
use veiled.Bitcoin.{Bitcoin, OutPoint, Rpc}
use veiled.Types.{Commitment}
use veiled.Merchant.{Merchant}
use veiled.Registry
use veiled.Registry.{
  TaprootCommitment, Registry, RegistryError, anchor, create_anonymity_set, add_merchant, setup,
}
use veiled.Registry.Merkle.{merkle_root, merkle_root-ok, next_power_of_two, power_from}
use veiled.Registry.Anchor.{Anchors, create_anonymity_set-Anchors, merkle_root-duplicate}
use veiled.Service.Wallet.{RegistryWallet, verify_payment, verify_payment-Pays, Pays}
use veiled.Service.Store
use veiled.Service.Store.{Db, create_tx, store_set, fund}
use veiled.Service.Handlers.{default_config, ServiceState, register_beneficiary, pad_set}
use veiled.Service.Bounds.{IsSound}
use veiled.Service.History.{Reachable, started, beneficiary, Reachable-IsSound}
use veiled.Client.Requests.{MerchantRequest}
use veiled.Service.Padding.{pad_set-length}

instance abbrev pub toy_bitcoin : Bitcoin
toy_bitcoin = record {
  x_only_public_key = λ k. replicate 32 3;
  scalar_from_be_bytes = λ b. some b;
  add_tweak = λ k t. some t;
  new_p2tr_tweaked = λ k. 81 ∷ k;
  sha256d = λ b. replicate 32 7;
}

abbrev pub wallet : RegistryWallet
wallet = record {
  rpc_client = none;
  mnemonic = codes "words";
  address = codes "bcrt1p";
  xonly_bytes = replicate 32 5;
}

abbrev pub at_start : ServiceState
at_start = record {
  store = Store.new wallet none;
  registry =
      Registry.new default_config.beneficiary_capacity default_config.min_sats_per_user (1 ∷ []);
}

abbrev phi : Commitment
phi = replicate 33 2

abbrev pub txid : Bytes
txid = replicate 32 9

abbrev pub with_one : ServiceState
with_one = (register_beneficiary default_config at_start phi txid 0).0

with_one-Reachable : Reachable default_config with_one
with_one-Reachable = beneficiary at_start phi txid 0 (started wallet none (1 ∷ []))

Reachable-IsSound_example : IsSound default_config with_one.registry
Reachable-IsSound_example = Reachable-IsSound default_config with_one with_one-Reachable

abbrev new_shop : MerchantRequest
new_shop = record {
  name = codes "shop";
  origin = [];
  email = [];
  phone = [];
  funding_txid = txid;
  funding_vout = 1;
}

abbrev full_registry : Registry
full_registry = record (Registry.new 4 1000 (1 ∷ [])) {
  anonymity_set = phi ∷ replicate 33 3 ∷ phi ∷ [];
}

abbrev funding : OutPoint
funding = record { txid = txid; vout = 0 }

create_anonymity_set-Anchors_example :
    (root : Bytes) × ((merkle_root {E = RegistryError} full_registry.anonymity_set ≡ ok root)
      × (((create_anonymity_set full_registry funding).0 ≡ record full_registry { set_id = root })
          × ((t : TaprootCommitment)
              → ((create_anonymity_set full_registry funding).1 ≡ ok t)
                ↔ Anchors full_registry funding root t)))
create_anonymity_set-Anchors_example =
    create_anonymity_set-Anchors full_registry funding (omega arith)

merkle_root-ok_example :
    (root : Bytes) × (merkle_root {E = RegistryError} full_registry.anonymity_set ≡ ok root)
merkle_root-ok_example =
    merkle_root-ok {E = RegistryError} full_registry.anonymity_set (omega arith)

merkle_root-duplicate_example :
    merkle_root {E = RegistryError} (phi ∷ replicate 33 3 ∷ phi ∷ phi ∷ [])
    ≡ merkle_root {E = RegistryError} (phi ∷ replicate 33 3 ∷ phi ∷ [])
unfolding next_power_of_two power_from
merkle_root-duplicate_example =
    merkle_root-duplicate {E = RegistryError} phi (replicate 33 3 ∷ phi ∷ []) (omega arith)

abbrev shop : Merchant
shop = record {
  name = record { text = codes "shop" };
  credential_generator = replicate 33 2;
  origin = [];
  merchant_id = 0;
  registered_identities = [];
}

abbrev one_shop : Registry
one_shop = (add_merchant (Registry.new 4 1000 []) shop).0

pad_set-length_example :
    (length (pad_set 8 (phi ∷ phi ∷ [])) ≡ 8)
    × (take 2 (pad_set 8 (phi ∷ phi ∷ [])) ≡ phi ∷ phi ∷ [])
pad_set-length_example = pad_set-length 8 (phi ∷ phi ∷ []) (omega arith) (omega arith)

-- A node that knows one transaction, which pays 1500 satoshis to the wallet.
abbrev node : Rpc
node = record {
  get_raw_transaction =
      λ id. some (some (record { address = some (codes "bcrt1p"); value = some 1500 } ∷ []));
  fund_sign_broadcast = λ words script amount. none;
}

abbrev connected : RegistryWallet
connected = record wallet { rpc_client = some node }

verify_payment-Pays_example :
    (verify_payment connected (record { txid = txid; vout = 0 }) 1000 ≡ ok tt)
    ↔ Pays node connected.address (record { txid = txid; vout = 0 }) 1000
verify_payment-Pays_example =
    verify_payment-Pays connected node (record { txid = txid; vout = 0 }) 1000 refl
