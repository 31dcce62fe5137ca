-- ===== src/Wallets/Dispatch.antt =====
-- `dispatch` and the daemon loop of bin/veiled_wallet.rs, over the files.
use veiled.Prelude.{
  true, false, ℕ, Bool, List, [], ◌∷◌, Option, none, some, Bytes, codes, is_blank, list_eq, nat_eq,
  ◌===◌, Outcome, ok, err, panic, ok_or, if◌then◌else◌,
}
use veiled.Wallets.Bdk.{Bdk, StateJson, Host}
use veiled.Wallets.Io.{WalletError, bad_params, unknown_command, Files, Io, lift, ◌>>=◌}
use veiled.Wallets.Json.{Response, pong, failed, invalid_json, internal_panic, Serde}
use veiled.Wallets.Handlers.{
  handle_create_wallet, handle_get_balance, handle_get_address, handle_send, handle_faucet,
  handle_get_tx, handle_get_tx_history, handle_get_balance_fast,
}

module _ ⦃b : Bdk⦄ where
  -- One turn of the loop: the line (none when it cannot be read), the entropy that the command draws,
  -- the node and the disk, and whether the answer can be written.
  pub record Turn : Type 0 where
    pub line : Option Bytes
    pub entropy : Bytes
    pub host : Host
    pub writable : Bool

module _ ⦃b : Bdk⦄ ⦃j : StateJson⦄ ⦃d : Serde⦄ where
  -- `serde_json::from_value(params).map_err(…)?`
  abbrev pub with_params {ℓ} : {P : Type ℓ} → Option P → (P → Io Response) → Io Response
  with_params params handle = lift (ok_or params bad_params) >>= handle

  unfoldable pub dispatch : Host → Bytes → Bytes → d.Value → Io Response
  dispatch host entropy name params =
      if name === codes "create-wallet"
      then with_params (d.create_wallet params) (handle_create_wallet host entropy)
      else if name === codes "get-balance"
      then with_params (d.get_balance params) (handle_get_balance host)
      else if name === codes "get-balance-fast"
      then with_params (d.get_balance params) (handle_get_balance_fast host)
      else if name === codes "get-address"
      then with_params (d.get_address params) (handle_get_address host)
      else if name === codes "send"
      then with_params (d.send params) (handle_send host)
      else if name === codes "faucet"
      then with_params (d.faucet params) (handle_faucet host)
      else if name === codes "get-tx"
      then with_params (d.get_tx params) (handle_get_tx host)
      else if name === codes "get-tx-history"
      then with_params (d.get_tx_history params) (handle_get_tx_history host)
      else if name === codes "ping"
      then lift (ok pong)
      else lift (err (unknown_command name))

  -- The text of a result, with the panic that `catch_unwind` catches.
  unfoldable pub caught : Outcome WalletError Response → Bytes
  caught (ok v) = d.response v
  caught (err e) = d.failure (failed e)
  caught panic = d.failure internal_panic

  -- What the single command prints of a result, with its exit code.
  unfoldable pub printed : Outcome WalletError Response → Option (Bytes × ℕ)
  printed (ok v) = some (d.response v, 0)
  printed (err e) = some (d.failure (failed e), 1)
  printed panic = none

  -- The files after a line, and the answer to it.
  unfoldable pub respond : Host → Bytes → Bytes → Files → Files × Bytes
  respond host entropy line files = elim (d.command line) [
    | none ↦ (files, d.failure invalid_json)
    | some (name, params) ↦
        let (after, result) = dispatch host entropy name params files in (after, caught result)
  ]

  -- The files and the answers when stdin ends. A command whose answer cannot be written has run.
  unfoldable pub daemon : Files → List Turn → Files × List Bytes
  daemon files [] = (files, [])
  daemon files (turn ∷ turns) = elim turn.line [
    | none ↦ (files, [])
    | some line ↦ elim (is_blank line) [
      | true ↦ daemon files turns
      | false ↦
          let (after, answer) = respond turn.host turn.entropy line files in
          elim turn.writable [
            | true ↦ let (last, answers) = daemon after turns in (last, answer ∷ answers)
            | false ↦ (after, [])
          ]
    ]
  ]

  -- The single command: the files after it, what it prints and its exit code, none when a panic ends it.
  unfoldable pub single : Host → Bytes → Bytes → Files → Files × Option (Bytes × ℕ)
  single host entropy input files = elim (d.command input) [
    | none ↦ (files, some (d.failure invalid_json, 1))
    | some (name, params) ↦
        let (after, result) = dispatch host entropy name params files in (after, printed result)
  ]
