-- ===== src/Wallets/Create.antt =====
-- create-wallet of bin/veiled_wallet.rs, run on a new path and again.
use veiled.Prelude.{All, List, [], ◌∷◌, true, ◌≡◌, none, Bytes, codes, list_eq, nat_eq, Outcome, ok}
use veiled.Prelude.Map
use veiled.Wallets.Bdk.{
  WriteResult, written, refused, torn, torn, refused, written, WriteResult, Bdk, StateJson, Host,
  WalletState, external,
}
use veiled.Wallets.Io.{WalletError, Files, Io}
use veiled.Wallets.Json.{Response, CreateWalletParams}
use veiled.Wallets.Sync.{recreate_wallet}
use veiled.Wallets.Handlers.{handle_create_wallet}
use veiled.Wallets.Kept.{loaded}
use veiled.Wallets.Addresses.{IsWallet}

module _ ⦃b : Bdk⦄ ⦃j : StateJson⦄ where
  -- The state that create-wallet writes.
  abbrev created : Bytes → b.Mnemonic → Bytes → Bytes → Bytes → WalletState
  created name words descriptor change_descriptor address = record {
    mnemonic = b.to_text words;
    wallet_name = name;
    descriptor = descriptor;
    change_descriptor = change_descriptor;
    address = address;
    address_index = 0;
    network = codes "regtest";
    checkpoint_height = none;
    checkpoint_hash = none;
    cached_balance = none;
  }

  -- What create-wallet leaves when it makes a wallet.
  pub record IsCreated (files : Files) (path address mnemonic name : Bytes) : Type 0 where
    pub state : WalletState
    pub wallet : b.Wallet
    pub read : loaded files path ≡ ok state
    pub words_of : IsWallet state wallet
    pub first_address : address ≡ b.peek_address wallet external 0
    pub state_address : address ≡ state.address
    pub state_mnemonic : mnemonic ≡ state.mnemonic
    pub state_name : name ≡ state.wallet_name
    pub recreated : recreate_wallet state ≡ ok (b.reveal_addresses_to wallet 0)

  -- A call of create-wallet at the same path: the disk as it finds it, its entropy and its name.
  pub record Again : Type 0 where
    pub host : Host
    pub entropy : Bytes
    pub name : Bytes

  -- One call after the other, with their answers.
  abbrev pub create_again :
      CreateWalletParams → List Again → Files → Files × List (Outcome WalletError Response)
  create_again p [] files = (files, [])
  create_again p (a ∷ later) files =
      let (next, answer) =
        handle_create_wallet a.host a.entropy (record p { name = a.name }) files in
      let (last, answers) = create_again p later next in (last, answer ∷ answers)

  abbrev pub Reads : Bytes → List Again → Type 0
  Reads path later = All (λ (a : Again). a.host.readable path ≡ true) later
