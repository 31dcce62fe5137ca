-- ===== src/Examples/Sessions.antt =====
-- Commands of bin/veiled_wallet.rs on one wallet, over the instances of Examples/Wallets.antt.
use veiled.Prelude.{
  is_char_boundary, ◌≡◌, refl, arith, true, List, [], ◌∷◌, none, some, Bytes, codes, list_eq,
  nat_eq, All, ok,
}
use veiled.Wallets.Bdk.{NotTorn, written, refused, refused, NotTorn, written, Host, WalletState}
use veiled.Wallets.Io.{◌>>=◌, save_state, lift, Files, load_state}
use veiled.Wallets.Json.{Rpc, Serde, CreateWalletParams, GetAddressParams, balance_read}
use veiled.Wallets.Sync.{recreate_wallet, restore_checkpoint, insert_block}
use veiled.Wallets.Handlers.{handle_get_balance_fast, handle_get_address, rpc_client}
use veiled.Wallets.Dispatch.{Turn, daemon}
use veiled.Wallets.Kept.{identity, loaded}
use veiled.Wallets.History.{IsSafe, daemon-identity}
use veiled.Wallets.Addresses.{IsWallet, get_addresses}
use veiled.Wallets.Scan.{Revealed, paying, get_addresses-Revealed, get_balance_fast-get_addresses}
use veiled.Wallets.Create.{Again}
use veiled.Examples.Wallets.{Purse, new_purse, purse_bdk, purse_laws, state_json}

abbrev path : Bytes
path = codes "w"

abbrev no_rpc : Rpc
no_rpc = record { rpc_url = none; rpc_user = none; rpc_pass = none }

abbrev host : Host
host = record {
  readable = λ p. true;
  write = λ p. written;
  connects = λ url user pass. true;
  blocks = λ cp. [];
  mempool = some [];
  send_raw_transaction = λ tx. true;
  generatetoaddress = λ n a. none;
  getrawtransaction = λ t. none;
  scantxoutset = λ d. none;
}

-- A disk that refuses every write.
abbrev full_disk : Host
full_disk = record host { write = λ p. refused }

abbrev at_tip : WalletState
at_tip = record {
  mnemonic = codes "words";
  wallet_name = codes "alice";
  descriptor = codes "d";
  change_descriptor = codes "c";
  address = codes "a";
  address_index = 0;
  network = codes "regtest";
  checkpoint_height = some 7;
  checkpoint_hash = some (codes "0123456789abcdef");
  cached_balance = none;
}

abbrev files : Files
files = (path, state_json.to_string_pretty at_tip) ∷ []

abbrev alice_purse : Purse
alice_purse = new_purse (codes "words")

alice_words : IsWallet at_tip alice_purse
alice_words = record {
  words = codes "words";
  key = codes "words";
  parsed = refl;
  mastered = refl;
  made = refl;
}

abbrev address_params : GetAddressParams
address_params = record { state_path = path; rpc = no_rpc }

-- The second of three calls fails.
abbrev three_hosts : List Host
three_hosts = host ∷ (full_disk ∷ (host ∷ []))

three_safe : All (λ (h : Host). NotTorn h) three_hosts
three_safe = (λ p l e. cc, (λ p l e. cc, (λ p l e. cc, tt)))

get_addresses-Revealed_example :
    (t : WalletState) × ((loaded (get_addresses address_params three_hosts files).0 path ≡ ok t)
      × Revealed 3 at_tip t alice_purse (get_addresses address_params three_hosts files).1)
get_addresses-Revealed_example =
    get_addresses-Revealed address_params three_hosts files at_tip alice_purse refl alice_words
      three_safe (omega arith)

abbrev after_calls : WalletState
after_calls = record at_tip { address_index = 2; address = 2 ∷ codes "words" }

get_balance_fast-get_addresses_example :
    (handle_get_balance_fast
      (paying host (get_addresses address_params three_hosts files).1 900)
      (record { state_path = path; rpc = no_rpc })
      (get_addresses address_params three_hosts files).0).1
    ≡ ok (balance_read (record { confirmed = 900; unconfirmed = 0; total = 900 }))
unfolding load_state save_state lift ◌>>=◌ handle_get_address recreate_wallet restore_checkpoint
    insert_block is_char_boundary rpc_client
get_balance_fast-get_addresses_example =
    get_balance_fast-get_addresses address_params (record { state_path = path; rpc = no_rpc })
      three_hosts host files at_tip after_calls alice_purse
      (record alice_purse {
        next = 3;
        tip = record { height = 7; hash = codes "0123456789abcdef" };
      })
      900 refl alice_words three_safe (omega arith) refl refl refl refl refl

abbrev new_params : CreateWalletParams
new_params = record { state_path = codes "new"; name = codes "bob"; rpc = no_rpc }

-- Two more calls, the first with a disk that refuses every write.
abbrev two_more : List Again
two_more =
    record { host = full_disk; entropy = codes "f"; name = codes "eve" }
    ∷ (record { host = host; entropy = codes "g"; name = codes "bob" } ∷ [])

-- The parameters of every command that has a path are those of the wallet.
instance abbrev toy_json : Serde
toy_json = record {
  Value = Unit {0};
  command = λ line. some (line, tt);
  create_wallet = λ v. none;
  get_balance = λ v. some (record { state_path = path; rpc = no_rpc });
  get_address = λ v. some address_params;
  send = λ v. none;
  faucet = λ v. none;
  get_tx = λ v. none;
  get_tx_history = λ v. some (record { state_path = path; rpc = no_rpc });
  response = λ r. codes "ok";
  failure = λ f. codes "failed";
}

abbrev turn_of : Bytes → Turn
turn_of line = record { line = some line; entropy = []; host = host; writable = true }

abbrev session : List Turn
session =
    turn_of (codes "get-address") ∷ (turn_of (codes "get-balance") ∷ (turn_of (codes "send") ∷ []))

host-IsSafe : IsSafe host
host-IsSafe = (λ p l e. cc, λ p. refl)

daemon-identity_example :
    (t : WalletState) × ((loaded (daemon files session).0 path ≡ ok t)
      × (identity t ≡ identity at_tip))
daemon-identity_example =
    daemon-identity files session path at_tip (host-IsSafe, (host-IsSafe, (host-IsSafe, tt))) refl
