-- ===== src/Bitcoin.antt =====
-- What the registry uses of the crates bitcoin, secp256k1 and bdk_wallet and of a Bitcoin node: the
-- transaction types, the key tweak, scripts and hashes, and the calls to the node. The program does
-- not implement these; each is an operation of an interface, with no law.
use veiled.Prelude.{ℕ, List, Option, Bytes}

pub record OutPoint : Type 0 where
  pub txid : Bytes
  pub vout : ℕ

pub record TxIn : Type 0 where
  pub previous_output : OutPoint

pub record TxOut : Type 0 where
  pub value : ℕ
  pub script_pubkey : Bytes

pub record Transaction : Type 0 where
  pub version : ℕ
  pub lock_time : ℕ
  pub input : List TxIn
  pub output : List TxOut

-- Keys, scalars and scripts are their bytes.
pub record Bitcoin : Type 0 where
  -- `Keypair::x_only_public_key`, from the secret key
  pub x_only_public_key : Bytes → Bytes
  -- `Scalar::from_be_bytes`, none when out of range
  pub scalar_from_be_bytes : Bytes → Option Bytes
  -- `XOnlyPublicKey::add_tweak`
  pub add_tweak : Bytes → Bytes → Option Bytes
  -- `ScriptBuf::new_p2tr_tweaked`
  pub new_p2tr_tweaked : Bytes → Bytes
  -- `sha256d::Hash::hash`
  pub sha256d : Bytes → Bytes

-- One output in the answer to `getrawtransaction`: the address of its script, and its value in
-- satoshis as `Amount::from_btc` reads it.
pub record RawOutput : Type 0 where
  pub address : Option Bytes
  pub value : Option ℕ

-- A node, and the wallet that funds and signs through it.
pub record Rpc : Type 0 where
  -- the `vout` array of a transaction that the node knows, when it has one
  pub get_raw_transaction : Bytes → Option (Option (List RawOutput))
  -- the id of a transaction that the wallet of a mnemonic has paid an amount to a script with
  pub fund_sign_broadcast : Bytes → Bytes → ℕ → Option Bytes

-- What core/tx.rs uses of the crate bitcoin.
pub record TxBitcoin : Type 0 where
  -- `Transaction::compute_txid`
  pub compute_txid : Transaction → Bytes
  -- `PublicKey::x_only_public_key`, from the serialized key
  pub x_only : Bytes → Bytes
  -- the x-only public key of `SecretKey::from_slice`, none when out of range
  pub x_only_of_secret : Bytes → Option Bytes
  -- the sum of an iterator of amounts, none when it panics
  pub sum : List ℕ → Option ℕ
  -- `Amount + Amount`, none when it panics
  pub add : ℕ → ℕ → Option ℕ
