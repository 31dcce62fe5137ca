-- ===== src/Commands/Dispatch.antt =====
-- `dispatch` and `main` of bin/veiled_core.rs: the command by its name, the answer to a line, the
-- loop of the daemon and the single command. What is logged to stderr is left out.
use veiled.Prelude.{
  ℕ, Bool, List, [], ◌∷◌, Option, none, some, Bytes, codes, is_blank, list_eq, nat_eq, ◌===◌,
  if◌then◌else◌, Outcome, ok, err, panic, ok_or, ◌>>=◌,
}
use veiled.Crypto.{Crypto, Scalar}
use veiled.Types.{MasterSecret, ChildRandomness, BlindingKey}
use veiled.Request.Address.{Addresses}
use veiled.PaymentIdentity.Prove.{Nonces}
use veiled.Hex.{Hex}
use veiled.Commands.Json.{
  Response, pong, CoreError, bad_params, unknown_command, failed, invalid_json, internal_panic,
  Serde,
}
use veiled.Commands.Handlers.{
  handle_build_crs, handle_create_credential, handle_register_locally, handle_create_payment_id,
  handle_receive_payment_id, handle_create_payment_request, handle_verify_payment_request,
  handle_pseudonym_to_address,
}

module _ ⦃c : Crypto⦄ where
  -- What a command draws from the random source.
  pub record Draws : Type 0 where
    pub sk : MasterSecret
    pub r : ChildRandomness
    pub k : BlindingKey
    pub nonces : Nonces
    pub t : Scalar

  -- One turn of the loop: the line (none when it cannot be read), what the command draws, and whether
  -- the answer can be written.
  pub record Turn : Type 0 where
    pub line : Option Bytes
    pub draws : Draws
    pub writable : Bool

module _ ⦃c : Crypto⦄ ⦃x : Hex⦄ ⦃a : Addresses⦄ ⦃j : Serde⦄ (dim : ℕ) where
  -- `serde_json::from_value(params).map_err(…)?`
  abbrev pub with_params {ℓ} :
      {P : Type ℓ} → Option P → (P → Outcome CoreError Response) → Outcome CoreError Response
  with_params params handle = ok_or params bad_params >>= handle

  unfoldable pub dispatch : Draws → Bytes → j.Value → Outcome CoreError Response
  dispatch d name params =
      if name === codes "build-crs"
      then with_params (j.build_crs params) handle_build_crs
      else if name === codes "create-credential"
      then with_params (j.create_credential params) (handle_create_credential d.sk d.r d.k)
      else if name === codes "register-locally"
      then with_params (j.register_locally params) handle_register_locally
      else if name === codes "create-payment-id"
      then with_params (j.create_payment_id params) (handle_create_payment_id dim d.nonces)
      else if name === codes "receive-payment-id"
      then with_params (j.receive_payment_id params) (handle_receive_payment_id dim)
      else if name === codes "create-payment-request"
      then with_params (j.create_payment_request params) (handle_create_payment_request d.t)
      else if name === codes "verify-payment-request"
      then with_params (j.verify_payment_request params) handle_verify_payment_request
      else if name === codes "pseudonym-to-address"
      then with_params (j.pseudonym_to_address params) handle_pseudonym_to_address
      else if name === codes "ping"
      then ok pong
      else err (unknown_command name)

  -- What `dispatch` answers, with the panic that `catch_unwind` catches.
  unfoldable pub caught : Outcome CoreError Response → Bytes
  caught (ok v) = j.response v
  caught (err e) = j.failure (failed e)
  caught panic = j.failure internal_panic

  -- The text that the daemon answers to a line.
  unfoldable pub respond : Draws → Bytes → Bytes
  respond d line = elim (j.command line) [
    | none ↦ j.failure invalid_json
    | some (name, params) ↦ caught (dispatch d name params)
  ]

  -- The answers that the daemon writes until stdin ends.
  unfoldable pub daemon : List Turn → List Bytes
  daemon [] = []
  daemon (turn ∷ turns) =
      let rest = daemon turns in
      elim turn.line [
        | none ↦ []
        | some line ↦
            if is_blank line
            then rest
            else if turn.writable
            then respond turn.draws line ∷ rest
            else []
      ]

  -- The single command: what it prints and its exit code, none when a panic ends it.
  unfoldable pub single : Draws → Bytes → Option (Bytes × ℕ)
  single d input = elim (j.command input) [
    | none ↦ some (j.failure invalid_json, 1)
    | some (name, params) ↦ elim (dispatch d name params) [
      | ok v ↦ some (j.response v, 0)
      | err e ↦ some (j.failure (failed e), 1)
      | panic ↦ none
    ]
  ]
