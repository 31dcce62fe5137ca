-- ===== src/Wallets/Io.antt =====
-- The files of bin/veiled_wallet.rs: a computation reads and writes them and returns a result.
-- `load_state`, `save_state` and `save_checkpoint`.
use veiled.Prelude.{
  if◌then◌else◌, Option, none, some, Bytes, list_eq, nat_eq, Outcome, ok, err, panic, ok_or,
}
use veiled.Prelude.Map
use veiled.Prelude.Map.{Map}
use veiled.Wallets.Bdk.{written, refused, torn, WalletState, StateJson, Bdk, Host, CheckPoint}

pub data WalletError : Type 0 where
  bad_params rpc_failed mnemonic_error read_state parse_state write_state parse_mnemonic master_key
        create_wallet build_descriptor sync_block apply_block sync_mempool invalid_address
        wrong_network build_tx sign signing_incomplete extract_tx broadcast generatetoaddress
        getrawtransaction scantxoutset :
      WalletError
  unknown_command : Bytes → WalletError

-- The texts of the files, by path.
abbrev pub Files : Type 0
Files = Map Bytes Bytes

abbrev pub Io {ℓ} : Type ℓ → Type ℓ
Io A = Files → Files × Outcome WalletError A

module _ {ℓ} {A : Type ℓ} where
  abbrev pub continue {κ} :
      {B : Type κ} → Files × Outcome WalletError A → (A → Io B) → Files × Outcome WalletError B
  continue (files, ok a) f = f a files
  continue (files, err e) f = (files, err e)
  continue (files, Outcome.panic) f = (files, panic)

  infixl 5 ◌>>=◌
  unfoldable pub ◌>>=◌ {κ} : {B : Type κ} → Io A → (A → Io B) → Io B
  (m >>= f) files = continue (m files) f

  -- A computation that touches no file.
  unfoldable pub lift : Outcome WalletError A → Io A
  lift o files = (files, o)

  -- `let _ = m`
  abbrev pub ignored : Files × Outcome WalletError A → Files × Outcome WalletError (Unit {0})
  ignored (files, ok a) = (files, ok tt)
  ignored (files, err e) = (files, ok tt)
  ignored (files, Outcome.panic) = (files, panic)

  unfoldable pub ignore : Io A → Io (Unit {0})
  ignore m files = ignored (m files)

infixl 5 ◌>>◌
abbrev pub ◌>>◌ {κ} : {B : Type κ} → Io (Unit {0}) → Io B → Io B
m >> k = m >>= λ _. k

module _ ⦃j : StateJson⦄ where
  abbrev pub parse_text : Option Bytes → Outcome WalletError WalletState
  parse_text none = err read_state
  parse_text (some text) = ok_or (j.from_str text) parse_state

  -- A file that is not there, or whose read fails, is an error of the read.
  unfoldable pub load_state : ⦃b : Bdk⦄ → Host → Bytes → Io WalletState
  load_state host path files =
      (files, if host.readable path then parse_text (Map.get files path) else err read_state)

  unfoldable pub save_state : ⦃b : Bdk⦄ → Host → Bytes → WalletState → Io (Unit {0})
  save_state host path state files = elim (host.write path) [
    | written ↦ (Map.insert files path (j.to_string_pretty state), ok tt)
    | refused ↦ (files, err write_state)
    | torn left ↦ (Map.insert files path left, err write_state)
  ]

  -- The state with the checkpoint of a wallet.
  abbrev pub with_checkpoint : WalletState → CheckPoint → WalletState
  with_checkpoint state cp = record state {
    checkpoint_height = some cp.height;
    checkpoint_hash = some cp.hash;
  }

  unfoldable pub save_checkpoint : ⦃b : Bdk⦄ → Host → Bytes → b.Wallet → Io (Unit {0})
  save_checkpoint ⦃b⦄ host path wallet = do
    state ← load_state host path
    save_state host path (with_checkpoint state (b.latest_checkpoint wallet))
