-- ===== src/Wallets/Steps.antt =====
-- Single steps of the computations of bin/veiled_wallet.rs whose results are known.
use veiled.Prelude.{some, true, ◌∙◌, ◌≡◌, refl, ap, Bytes, Outcome, ok}
use veiled.Wallets.Bdk.{
  WriteResult, written, refused, torn, torn, WriteResult, Bdk, StateJson, Host, WalletState,
  CachedBalance,
}
use veiled.Wallets.Io.{
  WalletError, Files, Io, continue, load_state, save_state, lift, ignore, ignored, ◌>>=◌,
}
use veiled.Wallets.Kept.{loaded}
use veiled.Wallets.Handlers.{cache_balance}

pub step {ℓ κ} :
    {A : Type ℓ} {B : Type κ} (m : Io A) (f : A → Io B) (files after : Files) (a : A)
    → m files ≡ (after, ok a)
    → (m >>= f) files ≡ f a after
unfolding ◌>>=◌
step m f files after a e = ap (λ r. continue r f) e

pub lift_step {ℓ κ} :
    {A : Type ℓ} {B : Type κ} (o : Outcome WalletError A) (f : A → Io B) (files : Files) (a : A)
    → o ≡ ok a
    → (lift o >>= f) files ≡ f a files
unfolding lift ◌>>=◌
lift_step o f files a e = ap (λ q. continue (files, q) f) e

module _ ⦃j : StateJson⦄ where
  pub load_step {κ} :
      ⦃b : Bdk⦄ {B : Type κ} (host : Host) (path : Bytes) (f : WalletState → Io B) (files : Files)
      (s : WalletState)
      → host.readable path ≡ true
      → loaded files path ≡ ok s
      → (load_state host path >>= f) files ≡ f s files
  unfolding load_state ◌>>=◌
  load_step host path f files s r e = rw r (ap (λ q. continue (files, q) f) e)

  -- A save whose failure is ignored.
  pub save_ignored :
      ⦃b : Bdk⦄ (host : Host) (path : Bytes) (s : WalletState) (files : Files)
      → (ignore (save_state host path s) files).1 ≡ ok tt
  unfolding ignore save_state
  save_ignored host path s files = go (host.write path) refl
    where
      go :
          (r : WriteResult)
          → host.write path ≡ r
          → (ignore (save_state host path s) files).1 ≡ ok tt
      go written t = rw (save_state, t) refl
      go refused t = rw (save_state, t) refl
      go (torn left) t = rw (save_state, t) refl

  -- The result after a computation that returns.
  pub then_ok {ℓ κ} :
      {A : Type ℓ} {B : Type κ} (m : Io A) (b : B) (files : Files) (a : A)
      → (m files).1 ≡ ok a
      → ((m >>= λ _. lift (ok b)) files).1 ≡ ok b
  unfolding ◌>>=◌ lift
  then_ok m b files a e = ap (λ o. (continue ((m files).0, o) (λ _ f. (f, ok b))).1) e

  -- Caching a balance is ignored when it fails.
  pub cache_ignored :
      ⦃b : Bdk⦄ (host : Host) (path : Bytes) (cached : CachedBalance) (files : Files)
      (s : WalletState)
      → host.readable path ≡ true
      → loaded files path ≡ ok s
      → (ignore (cache_balance host path cached) files).1 ≡ ok tt
  unfolding ignore cache_balance
  cache_ignored host path cached files s r at =
      ap (λ q. (ignored q).1) (load_step host path _ files s r at)
      ∙ save_ignored host path (record s { cached_balance = some cached }) files
