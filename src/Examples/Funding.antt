-- ===== src/Examples/Funding.antt =====
-- A payment by a new wallet of registry/wallet.rs.
use veiled.Prelude.{
  ℕ, ok, ◌↔◌, refl, none, some, [], ◌∷◌, ◌≡◌, List, Option, Bytes, replicate, codes, true, Outcome,
}
use veiled.Bitcoin.{RawOutput}
use veiled.Wallets.Bdk.{written, Host, external}
use veiled.Wallets.Sync.{sync_wallet, apply_blocks}
use veiled.Service.Wallet.{RegistryWallet, fund_and_broadcast}
use veiled.Service.Funding
use veiled.Service.Funding.{
  Encodings, Funded, node, generate_mnemonic, create_bdk_wallet, derive_wallet_address, pay,
  fund_sign_broadcast, fund_and_broadcast-Funded,
}
use veiled.Examples.Wallets.{Purse, genesis, purse_bdk}
use veiled.Examples.Serving.{toy_bitcoin}

instance abbrev purse_encodings : Encodings
purse_encodings = record { script_pubkey = λ a. 81 ∷ (32 ∷ replicate 32 5); txid_bytes = λ tx. tx }

-- A chain with one block, which pays 9000.
abbrev host : Host
host = record {
  readable = λ p. true;
  write = λ p. written;
  connects = λ url user pass. true;
  blocks = λ cp. some (genesis, 9000) ∷ [];
  mempool = some [];
  send_raw_transaction = λ tx. true;
  generatetoaddress = λ n a. none;
  getrawtransaction = λ t. none;
  scantxoutset = λ d. none;
}

abbrev no_outputs : Bytes → Option (Option (List RawOutput))
no_outputs t = none

abbrev wallet : RegistryWallet
wallet = record {
  rpc_client = some (node host no_outputs);
  mnemonic = codes "entropy";
  address = 0 ∷ codes "entropy";
  xonly_bytes = replicate 32 5;
}

-- A script with fewer than 34 bytes cannot be cut.
short_script :
    Funding.new ⦃e = record purse_encodings { script_pubkey = λ a. a }⦄ none (codes "entropy")
    ≡ Outcome.panic
unfolding Funding.new generate_mnemonic create_bdk_wallet derive_wallet_address
short_script = refl

fund_and_broadcast-Funded_example :
    (u : Purse) × ((purse_bdk.peek_address u external 0 ≡ wallet.address)
      × ((script : Bytes) (amount : ℕ) (txid : Bytes)
          → (fund_and_broadcast wallet script amount ≡ ok txid) ↔ Funded host u script amount txid))
unfolding Funding.new generate_mnemonic create_bdk_wallet derive_wallet_address
fund_and_broadcast-Funded_example =
    fund_and_broadcast-Funded host no_outputs (codes "entropy") wallet refl

paid_test : fund_and_broadcast wallet (codes "script") 500 ≡ ok (codes "script")
unfolding fund_and_broadcast node fund_sign_broadcast create_bdk_wallet pay sync_wallet apply_blocks
paid_test = refl
