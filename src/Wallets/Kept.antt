-- ===== src/Wallets/Kept.antt =====
-- What the commands of bin/veiled_wallet.rs keep of the states in the files.
use veiled.Prelude.{
  ℕ, ◌≡◌, refl, ap, ◌∙◌, Bool-cases, inl, inr, Bytes, list_eq, nat_eq, ◌===◌, Outcome, ok, err,
}
use veiled.Prelude.Map
use veiled.Prelude.Map.{get-insert}
use veiled.Wallets.Bdk.{write-cases, NotTorn, Bdk, StateJson, Host, WalletState}
use veiled.Wallets.Io.{
  WalletError, parse_text, Files, Io, load_state, save_state, lift, ignore, continue, ignored,
  ◌>>=◌,
}

-- The fields that identify a wallet.
pub record WalletIdentity : Type 0 where
  pub mnemonic : Bytes
  pub wallet_name : Bytes
  pub descriptor : Bytes
  pub change_descriptor : Bytes
  pub network : Bytes

abbrev pub identity : WalletState → WalletIdentity
identity s = record {
  mnemonic = s.mnemonic;
  wallet_name = s.wallet_name;
  descriptor = s.descriptor;
  change_descriptor = s.change_descriptor;
  network = s.network;
}

module _ ⦃j : StateJson⦄ where
  -- What `load_state` reads at a path when no read fails.
  abbrev pub loaded : Files → Bytes → Outcome WalletError WalletState
  loaded files path = parse_text (Map.get files path)

  -- Every state that was read is still read, as the same wallet.
  pub Kept : Files → Files → Type 0
  Kept files after =
      (path : Bytes) (s : WalletState)
      → loaded files path ≡ ok s
      → (t : WalletState) × ((loaded after path ≡ ok t) × (identity t ≡ identity s))

  pub Kept-refl : (files : Files) → Kept files files
  unfolding Kept
  Kept-refl files path s e = (s, (e, refl))

  pub Kept-trans : (f g h : Files) → Kept f g → Kept g h → Kept f h
  unfolding Kept
  Kept-trans f g h k l path s e =
      let (t, (e1, same)) = k path s e in
      let (u, (e2, same')) = l path t e1 in (u, (e2, same' ∙ same))

  -- A computation that keeps the states, wherever it starts.
  pub Keeps {ℓ} : {A : Type ℓ} → Io A → Type 0
  Keeps m = (files : Files) → Kept files (m files).0

  pub continue-Kept {ℓ κ} :
      {A : Type ℓ} {B : Type κ} (files : Files) (r : Files × Outcome WalletError A) (f : A → Io B)
      → Kept files r.0
      → ((a : A) → Keeps (f a))
      → Kept files (continue r f).0
  unfolding Keeps
  continue-Kept files (after, ok a) f k l = Kept-trans files after (f a after).0 k (l a after)
  continue-Kept files (after, err e) f k l = k
  continue-Kept files (after, Outcome.panic) f k l = k

  pub bind-Keeps {ℓ κ} :
      {A : Type ℓ} {B : Type κ} (m : Io A) (f : A → Io B)
      → Keeps m
      → ((a : A) → Keeps (f a))
      → Keeps (m >>= f)
  unfolding Keeps ◌>>=◌
  bind-Keeps m f k l files = continue-Kept files (m files) f (k files) l

  pub lift-Keeps {ℓ} : {A : Type ℓ} (o : Outcome WalletError A) → Keeps (lift o)
  unfolding Keeps lift
  lift-Keeps o files = Kept-refl files

  ignored-Kept {ℓ} :
      {A : Type ℓ} (files : Files) (r : Files × Outcome WalletError A)
      → Kept files r.0
      → Kept files (ignored r).0
  ignored-Kept files (after, ok a) k = k
  ignored-Kept files (after, err e) k = k
  ignored-Kept files (after, Outcome.panic) k = k

  pub ignore-Kept {ℓ} :
      {A : Type ℓ} (m : Io A) (files : Files)
      → Kept files (m files).0
      → Kept files (ignore m files).0
  unfolding ignore
  ignore-Kept m files k = ignored-Kept files (m files) k

  pub ignore-Keeps {ℓ} : {A : Type ℓ} (m : Io A) → Keeps m → Keeps (ignore m)
  unfolding Keeps
  ignore-Keeps m k files = ignore-Kept m files (k files)

  -- A computation whose start keeps the states.
  pub bind-Kept {ℓ κ} :
      {A : Type ℓ} {B : Type κ} (m : Io A) (f : A → Io B) (files : Files)
      → Kept files (m files).0
      → ((a : A) → Keeps (f a))
      → Kept files ((m >>= f) files).0
  unfolding ◌>>=◌
  bind-Kept m f files k l = continue-Kept files (m files) f k l

  pub at-Keeps {ℓ} : {A : Type ℓ} (m : Io A) → ((files : Files) → Kept files (m files).0) → Keeps m
  unfolding Keeps
  at-Keeps m k = k

  pub Keeps-at {ℓ} : {A : Type ℓ} (m : Io A) (files : Files) → Keeps m → Kept files (m files).0
  unfolding Keeps
  Keeps-at m files k = k files

  -- A computation after one that touches no file, from where it starts.
  pub lift-Kept {ℓ κ} :
      {A : Type ℓ} {B : Type κ} (files : Files) (o : Outcome WalletError A) (f : A → Io B)
      → ((a : A) → Kept files (f a files).0)
      → Kept files ((lift o >>= f) files).0
  unfolding lift ◌>>=◌
  lift-Kept files (ok a) f l = l a
  lift-Kept files (err e) f l = Kept-refl files
  lift-Kept files Outcome.panic f l = Kept-refl files

  -- A computation that knows what it has loaded.
  pub load-Kept {κ} :
      ⦃b : Bdk⦄ {B : Type κ} (host : Host) (files : Files) (path : Bytes) (f : WalletState → Io B)
      → ((s : WalletState) → loaded files path ≡ ok s → Kept files (f s files).0)
      → Kept files ((load_state host path >>= f) files).0
  unfolding load_state ◌>>=◌
  load-Kept host files path f l = elim (Bool-cases (host.readable path)) [
    | inl r ↦ rw r (go (loaded files path) refl)
    | inr r ↦ rw r (Kept-refl files)
  ]
    where
      go :
          (o : Outcome WalletError WalletState)
          → loaded files path ≡ o
          → Kept files (continue (files, o) f).0
      go (ok s) e = l s e
      go (err x) e = Kept-refl files
      go Outcome.panic e = Kept-refl files

  -- A state that is saved over the same wallet, or where no state is read.
  abbrev pub Replaces : Files → Bytes → WalletState → Type 0
  Replaces files path t = (s : WalletState) → loaded files path ≡ ok s → identity t ≡ identity s

  pub save_state-Kept :
      ⦃b : Bdk⦄ (host : Host) (safe : NotTorn host) (files : Files) (path : Bytes) (t : WalletState)
      → Replaces files path t
      → Kept files (save_state host path t files).0
  unfolding save_state Kept
  save_state-Kept host safe files path t same = elim (write-cases host safe path) [
    | inr w ↦ rw (save_state, w) (Kept-refl files)
    | inl w ↦
        rw (save_state, w)
          (λ other s e. elim (Bool-cases (path === other)) [
            | inl q ↦
                let at : path ≡ other = ((list_eq {A = ℕ}).beq_iff path other).0 q in
                let e' : loaded files path ≡ ok s = ap (loaded files) at ∙ e in
                (t, (rw (get-insert, q, j.from_str-to_string_pretty) refl, same s e'))
            | inr q ↦ (s, (rw (get-insert, q) e, refl))
          ])
  ]

  pub load-Keeps : ⦃b : Bdk⦄ (host : Host) (path : Bytes) → Keeps (load_state host path)
  unfolding load_state Keeps
  load-Keeps host path files = Kept-refl files

  -- The same, wherever it starts.
  pub loaded-Keeps {κ} :
      ⦃b : Bdk⦄ {B : Type κ} (host : Host) (path : Bytes) (f : WalletState → Io B)
      → ((files : Files) (s : WalletState) → loaded files path ≡ ok s → Kept files (f s files).0)
      → Keeps (load_state host path >>= f)
  unfolding Keeps
  loaded-Keeps host path f l files = load-Kept host files path f (l files)

  pub Kept-at :
      (files after : Files) (path : Bytes) (s : WalletState)
      → Kept files after
      → loaded files path ≡ ok s
      → (t : WalletState) × ((loaded after path ≡ ok t) × (identity t ≡ identity s))
  unfolding Kept
  Kept-at files after path s k e = k path s e
