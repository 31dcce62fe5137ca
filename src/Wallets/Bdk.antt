-- ===== src/Wallets/Bdk.antt =====
-- What bin/veiled_wallet.rs calls outside the repository: the crates bdk_wallet and bip39, the derived
-- JSON code of the state, and for each command the node and the disk as it finds them.
use veiled.Prelude.{
  true, refl, inr, inl, ◌≢◌, ◌⊎◌, ℕ, ◌+◌, ◌^◌, ◌<◌, ◌≡◌, Bool, List, Option, some, Bytes,
}

pub data KeychainKind : Type 0 where
  external internal : KeychainKind

pub record Balance : Type 0 where
  pub immature : ℕ
  pub trusted_pending : ℕ
  pub untrusted_pending : ℕ
  pub confirmed : ℕ

abbrev pub no_balance : Balance
no_balance = record { immature = 0; trusted_pending = 0; untrusted_pending = 0; confirmed = 0 }

-- A transaction of the wallet: its id as text, what it spent and received, and whether it is confirmed.
pub record CanonicalTx : Type 0 where
  pub txid : Bytes
  pub sent : ℕ
  pub received : ℕ
  pub is_confirmed : Bool

-- A block of the chain: its height and its hash as text.
pub record CheckPoint : Type 0 where
  pub height : ℕ
  pub hash : Bytes

pub record CachedBalance : Type 0 where
  pub confirmed : ℕ
  pub unconfirmed : ℕ
  pub total : ℕ

pub record WalletState : Type 0 where
  pub mnemonic : Bytes
  pub wallet_name : Bytes
  pub descriptor : Bytes
  pub change_descriptor : Bytes
  pub address : Bytes
  pub address_index : ℕ
  pub network : Bytes
  pub checkpoint_height : Option ℕ
  pub checkpoint_hash : Option Bytes
  pub cached_balance : Option CachedBalance

pub record Bdk : Type 1 where
  -- bip39 and bip32: the text of a mnemonic, and its master key
  pub Mnemonic : Type 0
  pub from_entropy : Bytes → Option Mnemonic
  pub to_text : Mnemonic → Bytes
  pub parse : Bytes → Option Mnemonic
  pub parse-to_text : (m : Mnemonic) → parse (to_text m) ≡ some m
  pub Xpriv : Type 0
  pub new_master : Mnemonic → Option Xpriv
  -- `Bip86(xprv, keychain).build(…)`, with the secret key
  pub descriptor : Xpriv → KeychainKind → Option Bytes
  -- `Wallet::create(…).create_wallet_no_persist()`
  pub Wallet : Type 0
  pub create : Xpriv → Option Wallet
  pub peek_address : Wallet → KeychainKind → ℕ → Bytes
  -- the external keychain: the addresses up to an index are revealed, and the next one is
  pub reveal_addresses_to : Wallet → ℕ → Wallet
  pub reveal_next_address : Wallet → ℕ × Bytes
  -- `hash.parse::<BlockHash>().is_ok()`
  pub is_block_hash : Bytes → Bool
  pub latest_checkpoint : Wallet → CheckPoint
  -- `latest_checkpoint().insert(…)` and `apply_update`; none when `insert` panics
  pub insert_checkpoint : Wallet → CheckPoint → Option Wallet
  pub Block : Type 0
  pub Transaction : Type 0
  pub apply_block_connected_to : Wallet → Block → Option Wallet
  pub apply_unconfirmed_txs : Wallet → List Transaction → Wallet
  pub balance : Wallet → Balance
  pub transactions : Wallet → List CanonicalTx
  -- `Address::from_str`, and its script when it is an address of regtest
  pub Address : Type 0
  pub address_from_str : Bytes → Option Address
  pub require_regtest : Address → Option Bytes
  -- `build_tx` with one recipient at 2 sat per vbyte, `sign` (whether all inputs are signed),
  -- `extract_tx` and `compute_txid`
  pub Psbt : Type 0
  pub build_tx : Wallet → Bytes → ℕ → Option Psbt
  pub sign : Wallet → Psbt → Option (Bool × Psbt)
  pub extract_tx : Psbt → Option Transaction
  pub compute_txid : Transaction → Bytes

-- What BDK documents of a wallet that is not persisted: revealing up to an index makes the next one
-- the first to reveal, and neither that nor a checkpoint changes the addresses.
pub record BdkLaws ⦃b : Bdk⦄ : Type 0 where
  pub reveal_next_address-reveal_addresses_to :
      (xprv : b.Xpriv) (w : b.Wallet) (n : ℕ)
      → b.create xprv ≡ some w
      → n + 1 < 2 ^ 31
      → b.reveal_next_address (b.reveal_addresses_to w n)
        ≡ (n + 1, b.peek_address w external (n + 1))
  pub reveal_next_address-insert_checkpoint :
      (w u : b.Wallet) (cp : CheckPoint)
      → b.insert_checkpoint w cp ≡ some u
      → b.reveal_next_address u ≡ b.reveal_next_address w
  pub peek_address-reveal_addresses_to :
      (w : b.Wallet) (n i : ℕ)
      → b.peek_address (b.reveal_addresses_to w n) external i ≡ b.peek_address w external i
  pub peek_address-insert_checkpoint :
      (w u : b.Wallet) (cp : CheckPoint) (i : ℕ)
      → b.insert_checkpoint w cp ≡ some u
      → b.peek_address u external i ≡ b.peek_address w external i

-- The JSON text of a state.
pub record StateJson : Type 0 where
  pub to_string_pretty : WalletState → Bytes
  pub from_str : Bytes → Option WalletState
  pub from_str-to_string_pretty : (s : WalletState) → from_str (to_string_pretty s) ≡ some s

-- The fields of a transaction that the node describes, as JSON.
pub record RawTransaction : Type 0 where
  pub confirmations : Bytes
  pub blockhash : Bytes
  pub size : Bytes
  pub vout : Bytes

-- What `fs::write` does: it writes the text, or fails before it opens the file, or after it has
-- emptied it.
pub data WriteResult : Type 0 where
  written refused : WriteResult
  torn : (left : Bytes) → WriteResult

-- The node and the disk during a command.
pub record Host ⦃b : Bdk⦄ : Type 0 where
  -- whether `read_to_string` succeeds on a file that is there
  pub readable : Bytes → Bool
  -- `create_dir_all` of the parent and `fs::write`
  pub write : Bytes → WriteResult
  -- `Client::new` with url, user and password
  pub connects : Bytes → Bytes → Bytes → Bool
  -- what the emitter yields from a checkpoint on: blocks, and none for an error
  pub blocks : CheckPoint → List (Option b.Block)
  pub mempool : Option (List b.Transaction)
  pub send_raw_transaction : b.Transaction → Bool
  pub generatetoaddress : ℕ → Bytes → Option (List Bytes)
  pub getrawtransaction : Bytes → Option RawTransaction
  -- the total of scantxoutset in satoshis, none when the result has no total
  pub scantxoutset : List Bytes → Option (Option ℕ)

-- No write fails after it has emptied its file.
abbrev pub NotTorn : ⦃b : Bdk⦄ → Host → Type 0
NotTorn host = (path left : Bytes) → host.write path ≢ torn left

-- No read of a file that is there fails.
abbrev pub NeverFailsRead : ⦃b : Bdk⦄ → Host → Type 0
NeverFailsRead host = (path : Bytes) → host.readable path ≡ true

-- What a write does when it is not torn.
pub write-cases :
    ⦃b : Bdk⦄ (host : Host)
    → NotTorn host
    → (path : Bytes) → (host.write path ≡ written) ⊎ (host.write path ≡ refused)
write-cases host safe path = go (host.write path) refl
  where
    go :
        (r : WriteResult)
        → host.write path ≡ r
        → (host.write path ≡ written) ⊎ (host.write path ≡ refused)
    go written e = inl e
    go refused e = inr e
    go (torn left) e = absurd (safe path left e)
