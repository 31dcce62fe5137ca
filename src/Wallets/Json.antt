-- ===== src/Wallets/Json.antt =====
-- The parameters and the responses of bin/veiled_wallet.rs. serde_json is an interface.
use veiled.Prelude.{ℕ, Bool, List, Option, Bytes}
use veiled.Wallets.Bdk.{CachedBalance, RawTransaction}
use veiled.Wallets.Io.{WalletError}

-- The fields of the node's address and login, which most commands take.
pub record Rpc : Type 0 where
  pub rpc_url : Option Bytes
  pub rpc_user : Option Bytes
  pub rpc_pass : Option Bytes

pub record CreateWalletParams : Type 0 where
  pub state_path : Bytes
  pub name : Bytes
  pub rpc : Rpc

pub record GetBalanceParams : Type 0 where
  pub state_path : Bytes
  pub rpc : Rpc

pub record GetAddressParams : Type 0 where
  pub state_path : Bytes
  pub rpc : Rpc

pub record SendParams : Type 0 where
  pub state_path : Bytes
  pub to_address : Bytes
  pub amount_sats : ℕ
  pub rpc : Rpc

pub record FaucetParams : Type 0 where
  pub address : Bytes
  pub blocks : Option ℕ
  pub rpc : Rpc

pub record GetTxParams : Type 0 where
  pub txid : Bytes
  pub rpc : Rpc

pub record GetTxHistoryParams : Type 0 where
  pub state_path : Bytes
  pub rpc : Rpc

-- An entry of the history: `incoming` stands for the direction and the category.
pub record HistoryEntry : Type 0 where
  pub txid : Bytes
  pub amount_sats : ℕ
  pub incoming : Bool
  pub confirmations : ℕ

-- What the commands answer, each with the fields of its JSON object.
pub data Response : Type 0 where
  wallet_created : (address mnemonic wallet_name : Bytes) → Response
  wallet_existing : (address mnemonic wallet_name : Bytes) → Response
  balance_read : CachedBalance → Response
  address_revealed : (address : Bytes) → Response
  transaction_sent : (txid : Bytes) → Response
  blocks_mined : (blocks : ℕ) (block_hashes : List Bytes) → Response
  transaction_read : (txid : Bytes) → RawTransaction → Response
  history_read : List HistoryEntry → Response
  pong : Response

pub data Failure : Type 0 where
  failed : WalletError → Failure
  invalid_json internal_panic : Failure

pub record Serde : Type 1 where
  pub Value : Type 0
  pub command : Bytes → Option (Bytes × Value)
  pub create_wallet : Value → Option CreateWalletParams
  pub get_balance : Value → Option GetBalanceParams
  pub get_address : Value → Option GetAddressParams
  pub send : Value → Option SendParams
  pub faucet : Value → Option FaucetParams
  pub get_tx : Value → Option GetTxParams
  pub get_tx_history : Value → Option GetTxHistoryParams
  pub response : Response → Bytes
  pub failure : Failure → Bytes
