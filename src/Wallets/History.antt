-- ===== src/Wallets/History.antt =====
-- The commands of bin/veiled_wallet.rs, alone and in whole sessions of the daemon, over the files.
use veiled.Prelude.{
  All, ok_or, ap, ◌∙◌, sym, ok_injective, ◌≢◌, ◌≡◌, refl, Bool, true, false, Bool-cases, inl, inr,
  List, [], ◌∷◌, Option, Option-cases, Bytes, codes, is_blank, list_eq, nat_eq, ◌===◌, Outcome, ok,
  err, if◌then◌else◌,
}
use veiled.Wallets.Bdk.{NotTorn, NeverFailsRead, Bdk, StateJson, Host, WalletState, CachedBalance}
use veiled.Wallets.Io.{
  unknown_command, bad_params, WalletError, Files, Io, load_state, save_state, save_checkpoint,
  lift, ◌>>=◌,
}
use veiled.Wallets.Json.{
  pong, Serde, Response, CreateWalletParams, GetBalanceParams, GetAddressParams, SendParams,
  FaucetParams, GetTxParams, GetTxHistoryParams,
}
use veiled.Wallets.Handlers.{
  make_wallet, existing_or, handle_create_wallet, handle_get_balance, handle_get_address, resync,
  handle_send, handle_faucet, handle_get_tx, handle_get_tx_history, cache_balance,
  handle_get_balance_fast,
}
use veiled.Wallets.Dispatch.{Turn, with_params, dispatch, respond, daemon}
use veiled.Wallets.Kept.{
  Kept-at, identity, loaded, Kept, Kept-refl, Kept-trans, Keeps, bind-Kept, bind-Keeps, lift-Keeps,
  ignore-Kept, ignore-Keeps, at-Keeps, Keeps-at, lift-Kept, loaded-Keeps, save_state-Kept,
  load-Keeps,
}

-- The disk of a command tears no write and fails no read.
abbrev pub IsSafe : ⦃b : Bdk⦄ → Host → Type 0
IsSafe host = NotTorn host × NeverFailsRead host

module _ ⦃b : Bdk⦄ ⦃j : StateJson⦄ where
  -- A save over the wallet that was just read.
  update-Kept :
      (host : Host) (safe : IsSafe host) (files : Files) (path : Bytes) (s t : WalletState)
      → loaded files path ≡ ok s
      → identity t ≡ identity s
      → Kept files (save_state host path t files).0
  update-Kept host safe files path s t e same =
      save_state-Kept host safe.0 files path t
        (λ u e'. same ∙ ap identity (ok_injective (sym e ∙ e')))

  save_checkpoint-Keeps :
      (host : Host) (safe : IsSafe host) (path : Bytes) (wallet : b.Wallet)
      → Keeps (save_checkpoint host path wallet)
  unfolding save_checkpoint
  save_checkpoint-Keeps host safe path wallet =
      loaded-Keeps host path _ (λ files s e. update-Kept host safe files path s _ e refl)

  cache_balance-Keeps :
      (host : Host) (safe : IsSafe host) (path : Bytes) (cached : CachedBalance)
      → Keeps (cache_balance host path cached)
  unfolding cache_balance
  cache_balance-Keeps host safe path cached =
      loaded-Keeps host path _ (λ files s e. update-Kept host safe files path s _ e refl)

  make_wallet-Kept :
      (host : Host) (safe : IsSafe host) (entropy : Bytes) (p : CreateWalletParams) (files : Files)
      → ((s : WalletState) → loaded files p.state_path ≢ ok s)
      → Kept files (make_wallet host entropy p files).0
  unfolding make_wallet
  make_wallet-Kept host safe entropy p files absent = lift-Kept files _ _ (λ m.
      lift-Kept files _ _ (λ xprv. lift-Kept files _ _ (λ wallet. lift-Kept files _ _ (λ d.
        lift-Kept files _ _ (λ d'.
          bind-Kept _ _ files
            (save_state-Kept host safe.0 files p.state_path _ (λ s e. absurd (absent s e)))
            (λ u. lift-Keeps _))))))

  handle_create_wallet-Keeps :
      (host : Host) (safe : IsSafe host) (entropy : Bytes) (p : CreateWalletParams)
      → Keeps (handle_create_wallet host entropy p)
  unfolding handle_create_wallet load_state
  handle_create_wallet-Keeps host safe entropy p =
      at-Keeps _ (λ files. rw (safe.1 p.state_path) (go files (loaded files p.state_path) refl))
    where
      go :
          (files : Files) (o : Outcome WalletError WalletState)
          → loaded files p.state_path ≡ o
          → Kept files (existing_or o (make_wallet host entropy p) files).0
      go files (ok s) e = Keeps-at _ files (lift-Keeps _)
      go files (err x) e = make_wallet-Kept host safe entropy p files (λ s e'. cc)
      go files Outcome.panic e = Keeps-at _ files (lift-Keeps _)

  handle_get_balance-Keeps :
      (host : Host) (safe : IsSafe host) (p : GetBalanceParams) → Keeps (handle_get_balance host p)
  unfolding handle_get_balance
  handle_get_balance-Keeps host safe p = bind-Keeps _ _ (load-Keeps host p.state_path) (λ s.
      bind-Keeps _ _ (lift-Keeps _) (λ u. bind-Keeps _ _ (lift-Keeps _) (λ w.
        bind-Keeps _ _ (lift-Keeps _) (λ w'.
          (loaded-Keeps host p.state_path _ (λ files s' e.
            bind-Kept _ _ files
              (ignore-Kept _ files (update-Kept host safe files p.state_path s' _ e refl))
              (λ v. lift-Keeps _)))))))

  handle_get_address-Keeps :
      (host : Host) (safe : IsSafe host) (p : GetAddressParams) → Keeps (handle_get_address host p)
  unfolding handle_get_address
  handle_get_address-Keeps host safe p =
      (loaded-Keeps host p.state_path _ (λ files s e. lift-Kept files _ _ (λ w.
        bind-Kept _ _ files (update-Kept host safe files p.state_path s _ e refl)
          (λ v. lift-Keeps _))))

  resync-Keeps :
      (host : Host) (safe : IsSafe host) (path : Bytes) (wallet : b.Wallet) (again : Bool)
      → Keeps (resync host path wallet again)
  unfolding resync
  resync-Keeps host safe path wallet false = lift-Keeps _
  resync-Keeps host safe path wallet true =
      (loaded-Keeps host path _ (λ files s e.
        bind-Kept _ _ files (update-Kept host safe files path s _ e refl) (λ u.
          bind-Keeps _ _ (lift-Keeps _) (λ r. bind-Keeps _ _ (lift-Keeps _) (λ w.
            bind-Keeps _ _ (ignore-Keeps _ (save_checkpoint-Keeps host safe path w))
              (λ v. lift-Keeps _))))))

  -- What follows a computation that touches no file.
  after_lift-Keeps {ℓ κ} :
      {A : Type ℓ} {B : Type κ} (o : Outcome WalletError A) (f : A → Io B)
      → ((a : A) → Keeps (f a))
      → Keeps (lift o >>= f)
  after_lift-Keeps o f k = bind-Keeps (lift o) f (lift-Keeps o) k

  handle_send-Keeps :
      (host : Host) (safe : IsSafe host) (p : SendParams) → Keeps (handle_send host p)
  unfolding handle_send
  handle_send-Keeps host safe p = bind-Keeps _ _ (load-Keeps host p.state_path) (λ s.
      after_lift-Keeps _ _ (λ u. after_lift-Keeps _ _ (λ u'. after_lift-Keeps _ _ (λ r.
        after_lift-Keeps _ _ (λ w.
          bind-Keeps _ _ (ignore-Keeps _ (save_checkpoint-Keeps host safe p.state_path w)) (λ v.
            bind-Keeps _ _ (resync-Keeps host safe p.state_path w _) (λ w'.
              after_lift-Keeps _ _ (λ a. after_lift-Keeps _ _ (λ script.
                after_lift-Keeps _ _ (λ psbt. after_lift-Keeps _ _ (λ signed.
                  after_lift-Keeps _ _ (λ g.
                    after_lift-Keeps _ _
                      (λ tx. after_lift-Keeps _ _ (λ sent. lift-Keeps _))))))))))))))

  handle_get_tx_history-Keeps :
      (host : Host) (safe : IsSafe host) (p : GetTxHistoryParams)
      → Keeps (handle_get_tx_history host p)
  unfolding handle_get_tx_history
  handle_get_tx_history-Keeps host safe p = bind-Keeps _ _ (load-Keeps host p.state_path) (λ s.
      after_lift-Keeps _ _ (λ u. after_lift-Keeps _ _ (λ r. after_lift-Keeps _ _ (λ w.
        bind-Keeps _ _ (ignore-Keeps _ (save_checkpoint-Keeps host safe p.state_path w))
          (λ v. lift-Keeps _)))))

  handle_get_balance_fast-Keeps :
      (host : Host) (safe : IsSafe host) (p : GetBalanceParams)
      → Keeps (handle_get_balance_fast host p)
  unfolding handle_get_balance_fast
  handle_get_balance_fast-Keeps host safe p = bind-Keeps _ _ (load-Keeps host p.state_path) (λ s.
      after_lift-Keeps _ _ (λ u. after_lift-Keeps _ _ (λ w. after_lift-Keeps _ _ (λ scan.
        bind-Keeps _ _ (ignore-Keeps _ (cache_balance-Keeps host safe p.state_path _))
          (λ v. lift-Keeps _)))))

  handle_faucet-Keeps :
      (host : Host) (safe : IsSafe host) (p : FaucetParams) → Keeps (handle_faucet host p)
  unfolding handle_faucet
  handle_faucet-Keeps host safe p = after_lift-Keeps _ _ (λ u.
      after_lift-Keeps _ _
        (λ v. after_lift-Keeps _ _ (λ w. after_lift-Keeps _ _ (λ hashes. lift-Keeps _))))

  handle_get_tx-Keeps :
      (host : Host) (safe : IsSafe host) (p : GetTxParams) → Keeps (handle_get_tx host p)
  unfolding handle_get_tx
  handle_get_tx-Keeps host safe p =
      after_lift-Keeps _ _ (λ u. after_lift-Keeps _ _ (λ raw. lift-Keeps _))

  if-Keeps {ℓ} :
      {A : Type ℓ} (t : Bool) (m n : Io A) → Keeps m → Keeps n → Keeps (if t then m else n)
  if-Keeps true m n k l = k
  if-Keeps false m n k l = l

module _ ⦃b : Bdk⦄ ⦃j : StateJson⦄ ⦃d : Serde⦄ where
  with_params-Keeps {ℓ} :
      {P : Type ℓ} (params : Option P) (handle : P → Io Response)
      → ((p : P) → Keeps (handle p))
      → Keeps (with_params params handle)
  with_params-Keeps params handle k = after_lift-Keeps (ok_or params bad_params) handle k

  dispatch-Keeps :
      (host : Host) (safe : IsSafe host) (entropy name : Bytes) (params : d.Value)
      → Keeps (dispatch host entropy name params)
  unfolding dispatch
  dispatch-Keeps host safe entropy name params =
      if-Keeps (name === codes "create-wallet") _ _
        (with_params-Keeps (d.create_wallet params) _
          (handle_create_wallet-Keeps host safe entropy))
        (if-Keeps (name === codes "get-balance") _ _
          (with_params-Keeps (d.get_balance params) _ (handle_get_balance-Keeps host safe))
          (if-Keeps (name === codes "get-balance-fast") _ _
            (with_params-Keeps (d.get_balance params) _ (handle_get_balance_fast-Keeps host safe))
            (if-Keeps (name === codes "get-address") _ _
              (with_params-Keeps (d.get_address params) _ (handle_get_address-Keeps host safe))
              (if-Keeps (name === codes "send") _ _
                (with_params-Keeps (d.send params) _ (handle_send-Keeps host safe))
                (if-Keeps (name === codes "faucet") _ _
                  (with_params-Keeps (d.faucet params) _ (handle_faucet-Keeps host safe))
                  (if-Keeps (name === codes "get-tx") _ _
                    (with_params-Keeps (d.get_tx params) _ (handle_get_tx-Keeps host safe))
                    (if-Keeps (name === codes "get-tx-history") _ _
                      (with_params-Keeps (d.get_tx_history params) _
                        (handle_get_tx_history-Keeps host safe))
                      (if-Keeps (name === codes "ping") _ _ (lift-Keeps (ok pong))
                        (lift-Keeps (err (unknown_command name)))))))))))

  respond-Kept :
      (host : Host) (safe : IsSafe host) (entropy line : Bytes) (files : Files)
      → Kept files (respond host entropy line files).0
  unfolding respond
  respond-Kept host safe entropy line files = elim (Option-cases (d.command line)) [
    | inl e ↦ rw (respond, e) (Kept-refl files)
    | inr ((name, params), e) ↦
        rw (respond, e) (Keeps-at _ files (dispatch-Keeps host safe entropy name params))
  ]

  daemon-Kept :
      (files : Files) (turns : List Turn)
      → All (λ (t : Turn). IsSafe t.host) turns
      → Kept files (daemon files turns).0
  unfolding daemon
  daemon-Kept files [] all = Kept-refl files
  daemon-Kept files (turn ∷ turns) (safe, all) = elim (Option-cases turn.line) [
    | inl e ↦ rw (daemon, e) (Kept-refl files)
    | inr (line, e) ↦ elim (Bool-cases (is_blank line)) [
      | inl t ↦ rw (daemon, e, t) (daemon-Kept files turns all)
      | inr t ↦
          let once = respond-Kept turn.host safe turn.entropy line files in
          let after = (respond turn.host turn.entropy line files).0 in
          elim (Bool-cases turn.writable) [
            | inl w ↦
                rw (daemon, e, t, w)
                  (Kept-trans files after (daemon after turns).0 once (daemon-Kept after turns all))
            | inr w ↦ rw (daemon, e, t, w) once
          ]
    ]
  ]

  -- Whatever commands a session of the daemon runs, with the node failing or not and writes refused or
  -- not, but none torn after it has emptied its file and no read of a file that is there failing: a
  -- path whose text was that of a state before has that of a state afterwards, with the same mnemonic,
  -- name, descriptors and network.
  pub daemon-identity :
      (files : Files) (turns : List Turn) (path : Bytes) (s : WalletState)
      → All (λ (t : Turn). IsSafe t.host) turns
      → loaded files path ≡ ok s
      → (t : WalletState) × ((loaded (daemon files turns).0 path ≡ ok t)
          × (identity t ≡ identity s))
  daemon-identity files turns path s all e =
      Kept-at files (daemon files turns).0 path s (daemon-Kept files turns all) e
