-- ===== src/Wallets/Addresses.antt =====
-- The addresses that get-address of bin/veiled_wallet.rs hands out, and those that get-balance-fast scans.
use veiled.Prelude.{
  beq_refl, ◌⊎◌, expect_inverts, ℕ, ◌+◌, ◌^◌, ◌<◌, ◌≡◌, refl, sym, ap, ◌∙◌, subst, Bool-cases, inl,
  inr, List, [], ◌∷◌, ◌++◌, Option, none, some, Bytes, list_eq, nat_eq, if◌then◌else◌, Outcome, ok,
  err, panic, ok_or, expect, bind-ok, bind_inverts, assert_inverts, ok_injective, outcome_cases,
}
use veiled.Prelude.Map.{get-insert}
use veiled.Wallets.Bdk.{
  write-cases, NotTorn, CheckPoint, Bdk, BdkLaws, StateJson, Host, WalletState, external,
}
use veiled.Wallets.Io.{
  WalletError, read_state, parse_mnemonic, master_key, create_wallet, Files, Io, load_state,
  save_state, lift, ◌>>=◌, ◌>>◌,
}
use veiled.Wallets.Json.{GetAddressParams, Response, address_revealed}
use veiled.Wallets.Sync.{insert_block, restore_checkpoint, recreate_wallet}
use veiled.Wallets.Handlers.{handle_get_address}
use veiled.Wallets.Kept.{loaded}

module _ ⦃b : Bdk⦄ where
  -- The wallet that a state's mnemonic stands for.
  pub record IsWallet (s : WalletState) (w : b.Wallet) : Type 0 where
    pub words : b.Mnemonic
    pub key : b.Xpriv
    pub parsed : b.parse s.mnemonic ≡ some words
    pub mastered : b.new_master words ≡ some key
    pub made : b.create key ≡ some w

module _ ⦃b : Bdk⦄ ⦃l : BdkLaws⦄ where
  -- A checkpoint is inserted, or the wallet is left as it is.
  pub restore_checkpoint-cases :
      (v u : b.Wallet) (height : Option ℕ) (hash : Option Bytes)
      → restore_checkpoint v height hash ≡ ok u
      → (u ≡ v) ⊎ ((cp : CheckPoint) × (b.insert_checkpoint v cp ≡ some u))
  unfolding restore_checkpoint insert_block
  restore_checkpoint-cases v u (some height) (some hash) e =
      elim (Bool-cases (b.is_block_hash hash)) [
        | inr t ↦ inl (
            sym (
              ok_injective
                (subst (λ q. (if q then insert_block v height hash else ok v) ≡ ok u) t e)))
        | inl t ↦
            let cp : CheckPoint = record { height = height; hash = hash } in
            let e0 : insert_block v height hash ≡ ok u =
              subst (λ q. (if q then insert_block v height hash else ok v) ≡ ok u) t e in
            let (r, (e1, e2)) = bind_inverts (expect (b.insert_checkpoint v cp)) _ e0 in
            let (_, e3) = assert_inverts _ _ e2 in
            inr (
              cp,
              subst (λ q. b.insert_checkpoint v cp ≡ some q) (ok_injective e3)
                  (expect_inverts _ e1),
            )
      ]
  restore_checkpoint-cases v u none hash e = inl (sym (ok_injective e))
  restore_checkpoint-cases v u (some height) none e = inl (sym (ok_injective e))

  -- A restored checkpoint leaves the addresses.
  restore_checkpoint-addresses :
      (v u : b.Wallet) (height : Option ℕ) (hash : Option Bytes)
      → restore_checkpoint v height hash ≡ ok u
      → (b.reveal_next_address u ≡ b.reveal_next_address v)
        × ((i : ℕ) → b.peek_address u external i ≡ b.peek_address v external i)
  restore_checkpoint-addresses v u height hash e =
      elim (restore_checkpoint-cases v u height hash e) [
        | inl same ↦
            (ap b.reveal_next_address same, λ i. ap (λ w. b.peek_address w external i) same)
        | inr (cp, inserted) ↦ (
          l.reveal_next_address-insert_checkpoint v u cp inserted,
          λ i. l.peek_address-insert_checkpoint v u cp i inserted,
        )
      ]

  -- The last step of recreating a wallet.
  pub recreate_wallet-restores :
      (s : WalletState) (w u : b.Wallet)
      → IsWallet s w
      → recreate_wallet s ≡ ok u
      → restore_checkpoint
          (b.reveal_addresses_to w s.address_index)
          s.checkpoint_height
          s.checkpoint_hash
        ≡ ok u
  unfolding recreate_wallet
  recreate_wallet-restores s w u h e =
      sym (
        bind-ok _ (ap (λ o. ok_or o parse_mnemonic) h.parsed)
        ∙ bind-ok _ (ap (λ o. ok_or o master_key) h.mastered)
        ∙ bind-ok _ (ap (λ o. ok_or o create_wallet) h.made))
      ∙ e

  -- A recreated wallet has the addresses of its mnemonic, the next one to reveal after those of the state.
  pub recreate_wallet-addresses :
      (s : WalletState) (w u : b.Wallet)
      → IsWallet s w
      → s.address_index + 1 < 2 ^ 31
      → recreate_wallet s ≡ ok u
      → (b.reveal_next_address u
          ≡ (s.address_index + 1, b.peek_address w external (s.address_index + 1)))
        × ((i : ℕ) → b.peek_address u external i ≡ b.peek_address w external i)
  recreate_wallet-addresses s w u h small e =
      let (next, peeks) =
        restore_checkpoint-addresses _ u s.checkpoint_height s.checkpoint_hash
          (recreate_wallet-restores s w u h e) in
      (
        next ∙ l.reveal_next_address-reveal_addresses_to h.key w s.address_index h.made small,
        λ i. peeks i ∙ l.peek_address-reveal_addresses_to w s.address_index i,
      )

module _ ⦃b : Bdk⦄ ⦃j : StateJson⦄ where
  -- The addresses that a result answers.
  abbrev pub answered : Outcome WalletError Response → List Bytes
  answered (ok (address_revealed a)) = a ∷ []
  answered _ = []

  -- One call of get-address after the other, each with the node and the disk as it finds them.
  abbrev pub get_addresses : GetAddressParams → List Host → Files → Files × List Bytes
  get_addresses p [] files = (files, [])
  get_addresses p (host ∷ hosts) files =
      let (after, result) = handle_get_address host p files in
      let (last, rest) = get_addresses p hosts after in (last, answered result ++ rest)

module _ ⦃b : Bdk⦄ ⦃l : BdkLaws⦄ ⦃j : StateJson⦄ where
  -- The state after the next address is revealed.
  abbrev pub moved : WalletState → b.Wallet → WalletState
  moved s w = record s {
    address_index = s.address_index + 1;
    address = b.peek_address w external (s.address_index + 1);
  }

  -- What get-address does with the next address.
  abbrev save_next : Host → GetAddressParams → WalletState → ℕ × Bytes → Io Response
  save_next host p s next =
      save_state host p.state_path (record s { address_index = next.0; address = next.1 })
      >> lift (ok (address_revealed next.1))

  -- The call failed and left the files, or answered the next address and saved it.
  abbrev pub IsStep :
      GetAddressParams
      → Files
      → WalletState
      → b.Wallet
      → Files × Outcome WalletError Response
      → Type 0
  IsStep p files s w r =
      ((r.0 ≡ files) × (answered r.1 ≡ []))
      ⊎ ((loaded r.0 p.state_path ≡ ok (moved s w)) × (answered r.1 ≡ (moved s w).address ∷ []))

  save_next-IsStep :
      (host : Host) (safe : NotTorn host) (p : GetAddressParams) (files : Files) (s : WalletState)
      (w : b.Wallet)
      → IsStep p files s w (
          save_next host p s
            (s.address_index + 1, b.peek_address w external (s.address_index + 1))
            files)
  unfolding save_state ◌>>=◌ lift
  save_next-IsStep host safe p files s w = elim (write-cases host safe p.state_path) [
    | inr t ↦ inl (rw (save_state, t) refl, rw (save_state, t) refl)
    | inl t ↦
        let at = beq_refl p.state_path in
        inr (
          rw (save_state, t, get-insert, at, j.from_str-to_string_pretty) refl,
          rw (save_state, t) refl,
        )
  ]

  pub handle_get_address-IsStep :
      (host : Host) (safe : NotTorn host) (p : GetAddressParams) (files : Files) (s : WalletState)
      (w : b.Wallet)
      → loaded files p.state_path ≡ ok s
      → IsWallet s w
      → s.address_index + 1 < 2 ^ 31
      → IsStep p files s w (handle_get_address host p files)
  unfolding handle_get_address load_state lift ◌>>=◌
  handle_get_address-IsStep host safe p files s w at h small =
      elim (Bool-cases (host.readable p.state_path)) [
        | inl r ↦ elim (outcome_cases (recreate_wallet s)) [
          | inl (u, e) ↦
              let (next, _) = recreate_wallet-addresses s w u h small e in
              let made : handle_get_address host p files
                  ≡ save_next host p s (b.reveal_next_address u) files =
                rw (handle_get_address, load_state, r, at, e) refl in
              subst (IsStep p files s w) (sym (made ∙ ap (λ n. save_next host p s n files) next))
                (save_next-IsStep host safe p files s w)
          | inr (inl (x, e)) ↦
              let made : handle_get_address host p files ≡ (files, err x) =
                rw (handle_get_address, load_state, r, at, e) refl in
              inl (ap (λ r. r.0) made, ap (λ r. answered r.1) made)
          | inr (inr e) ↦
              let made : handle_get_address host p files ≡ (files, panic) =
                rw (handle_get_address, load_state, r, at, e) refl in
              inl (ap (λ r. r.0) made, ap (λ r. answered r.1) made)
        ]
        | inr r ↦
            let made : handle_get_address host p files ≡ (files, err read_state) =
              rw (handle_get_address, load_state, r) refl in
            inl (ap (λ r. r.0) made, ap (λ r. answered r.1) made)
      ]
