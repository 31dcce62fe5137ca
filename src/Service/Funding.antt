-- ===== src/Service/Funding.antt =====
-- registry/wallet.rs: the wallet of the registry over BDK, its mnemonic, its address, its sync and the
-- steps of `fund_and_broadcast` with a node.
use veiled.Prelude.{
  ℕ, ◌≡◌, refl, sym, ap, ◌∙◌, true, leb, length, slice, List, Option, none, some, Bytes, Outcome,
  ok, err, panic, ok_or, expect, unwrap, assert, guard, ◌>>=◌, ◌>>◌, bind_inverts, guard_inverts,
  assert_inverts, ok_or_inverts, unwrap_inverts, ok_injective, bind-ok, guard_passes, ◌↔◌,
}
use veiled.Bitcoin.{Bitcoin, Rpc, RawOutput}
use veiled.Service.Wallet.{RegistryWallet, broadcast_failed, fund_and_broadcast}
use veiled.Wallets.Bdk.{Bdk, Host, external}
use veiled.Wallets.Io.{
  WalletError, parse_mnemonic, master_key, create_wallet, invalid_address, build_tx, sign,
  signing_incomplete, extract_tx, broadcast,
}
use veiled.Wallets.Sync.{sync_wallet}

-- What only the registry uses of BDK and bitcoin.
pub record Encodings ⦃b : Bdk⦄ : Type 0 where
  -- `script_pubkey().to_bytes()` of an address
  pub script_pubkey : Bytes → Bytes
  -- `compute_txid().as_byte_array()`
  pub txid_bytes : b.Transaction → Bytes

module _ ⦃b : Bdk⦄ where
  -- The 16 bytes of entropy are an argument.
  unfoldable pub generate_mnemonic {ℓ} : {E : Type ℓ} → Bytes → Outcome E b.Mnemonic
  generate_mnemonic entropy = expect (b.from_entropy entropy)

  unfoldable pub create_bdk_wallet : b.Mnemonic → Outcome WalletError b.Wallet
  create_bdk_wallet mnemonic = do
    xprv ← ok_or (b.new_master mnemonic) master_key
    ok_or (b.create xprv) create_wallet

  -- The code is that of `sync_wallet` in bin/veiled_wallet.rs, without its log.
  abbrev pub sync_bdk_wallet : Host → b.Wallet → Outcome WalletError b.Wallet
  sync_bdk_wallet = sync_wallet

  module _ ⦃e : Encodings⦄ where
    -- The address is kept as its text, from which the second type of addresses is parsed.
    unfoldable pub derive_wallet_address : b.Mnemonic → Outcome WalletError (Bytes × Bytes)
    derive_wallet_address mnemonic = do
      bdk ← create_bdk_wallet mnemonic
      let addr = b.peek_address bdk external 0
      let script_bytes = e.script_pubkey addr
      assert (leb 34 (length script_bytes))
      parsed ← ok_or (b.address_from_str addr) invalid_address
      ok (addr, slice 2 32 script_bytes)

    unfoldable pub new : Option Rpc → Bytes → Outcome WalletError RegistryWallet
    new rpc_client entropy = do
      mnemonic ← generate_mnemonic entropy
      derived ← unwrap (derive_wallet_address mnemonic)
      ok (record {
        rpc_client = rpc_client;
        mnemonic = b.to_text mnemonic;
        address = derived.0;
        xonly_bytes = derived.1;
      })

    -- The steps from a new wallet on.
    unfoldable pub pay : Host → Bytes → ℕ → b.Wallet → Outcome WalletError Bytes
    pay host output_script output_amount created = do
      bdk ← sync_bdk_wallet host created
      psbt ← ok_or (b.build_tx bdk output_script output_amount) build_tx
      signed ← ok_or (b.sign bdk psbt) sign
      guard signed.0 signing_incomplete
      tx ← ok_or (b.extract_tx signed.1) extract_tx
      guard (host.send_raw_transaction tx) broadcast
      ok (e.txid_bytes tx)

    -- The steps with a node, from the text of the mnemonic.
    unfoldable pub fund_sign_broadcast : Host → Bytes → Bytes → ℕ → Outcome WalletError Bytes
    fund_sign_broadcast host words output_script output_amount = do
      mnemonic ← ok_or (b.parse words) parse_mnemonic
      bdk ← create_bdk_wallet mnemonic
      pay host output_script output_amount bdk

    abbrev paid {ℓ κ} : {E : Type ℓ} {A : Type κ} → Outcome E A → Option A
    paid (ok a) = some a
    paid (err x) = none
    paid panic = none

    -- A node with the wallet that runs over it.
    unfoldable pub node : Host → (Bytes → Option (Option (List RawOutput))) → Rpc
    node host get_raw_transaction = record {
      get_raw_transaction = get_raw_transaction;
      fund_sign_broadcast =
          λ words script amount. paid (fund_sign_broadcast host words script amount);
    }

    -- A payment from a wallet: it is synced, builds and signs the transaction, and the node takes it.
    pub record Funded (host : Host) (start : b.Wallet) (script : Bytes) (amount : ℕ) (txid : Bytes)
        : Type 0 where
      pub bdk : b.Wallet
      pub psbt : b.Psbt
      pub signed : b.Psbt
      pub tx : b.Transaction
      pub synced : sync_bdk_wallet host start ≡ ok bdk
      pub built : b.build_tx bdk script amount ≡ some psbt
      pub complete : b.sign bdk psbt ≡ some (true, signed)
      pub extracted : b.extract_tx signed ≡ some tx
      pub sent : host.send_raw_transaction tx ≡ true
      pub id : e.txid_bytes tx ≡ txid

    paid_inverts {ℓ κ} :
        {E : Type ℓ} {A : Type κ} {a : A} (m : Outcome E A) → paid m ≡ some a → m ≡ ok a
    paid_inverts (ok c) h = let same : c ≡ _ = cc in ap ok same
    paid_inverts (err x) h = cc
    paid_inverts panic h = cc

    -- What a wallet that `new` made has: the text of a mnemonic whose wallet has its address first.
    new_inverts :
        (rpc_client : Option Rpc) (entropy : Bytes) (w : RegistryWallet)
        → new rpc_client entropy ≡ ok w
        → (m : b.Mnemonic) × ((u : b.Wallet) × ((create_bdk_wallet m ≡ ok u)
              × ((w.mnemonic ≡ b.to_text m)
                  × ((w.address ≡ b.peek_address u external 0) × (w.rpc_client ≡ rpc_client)))))
    unfolding new generate_mnemonic derive_wallet_address
    new_inverts rpc_client entropy w h =
        let (m, (h1, e1)) = bind_inverts (generate_mnemonic entropy) _ h in
        let (d, (h2, e2)) = bind_inverts (unwrap (derive_wallet_address m)) _ e1 in
        let h3 = unwrap_inverts (derive_wallet_address m) h2 in
        let (u, (h4, e4)) = bind_inverts (create_bdk_wallet m) _ h3 in
        let addr = b.peek_address u external 0 in
        let (long, e5) = assert_inverts (leb 34 (length (e.script_pubkey addr))) _ e4 in
        let (a, (h6, e6)) = bind_inverts (ok_or (b.address_from_str addr) invalid_address) _ e5 in
        let made = ok_injective e2 in
        let derived = ok_injective e6 in
        (
          m,
          (
            u,
            (
              h4,
              (
                sym (ap (λ r. r.mnemonic) made),
                (
                  sym (ap (λ r. r.address) made) ∙ sym (ap (λ q. q.0) derived),
                  sym (ap (λ r. r.rpc_client) made),
                ),
              ),
            ),
          ),
        )

    pay_inverts :
        (host : Host) (u : b.Wallet) (script : Bytes) (amount : ℕ) (txid : Bytes)
        → pay host script amount u ≡ ok txid
        → Funded host u script amount txid
    unfolding pay
    pay_inverts host u script amount txid h =
        let (bdk, (h3, e3)) = bind_inverts (sync_bdk_wallet host u) _ h in
        let (psbt, (h4, e4)) = bind_inverts (ok_or (b.build_tx bdk script amount) build_tx) _ e3 in
        let (signed, (h5, e5)) = bind_inverts (ok_or (b.sign bdk psbt) sign) _ e4 in
        let (all, e6) = guard_inverts signed.0 _ _ e5 in
        let (tx, (h7, e7)) = bind_inverts (ok_or (b.extract_tx signed.1) extract_tx) _ e6 in
        let (sent, e8) = guard_inverts (host.send_raw_transaction tx) _ _ e7 in
        record {
          bdk = bdk;
          psbt = psbt;
          signed = signed.1;
          tx = tx;
          synced = h3;
          built = ok_or_inverts _ _ h4;
          complete = ok_or_inverts _ _ h5 ∙ ap (λ t. some (t, signed.1)) all;
          extracted = ok_or_inverts _ _ h7;
          sent = sent;
          id = ok_injective e8;
        }

    pay-ok :
        (host : Host) (u : b.Wallet) (script : Bytes) (amount : ℕ) (txid : Bytes)
        → Funded host u script amount txid
        → pay host script amount u ≡ ok txid
    unfolding pay
    pay-ok host u script amount txid p =
        bind-ok _ p.synced
        ∙ bind-ok _ (ap (λ o. ok_or o build_tx) p.built)
        ∙ bind-ok _ (ap (λ o. ok_or o sign) p.complete)
        ∙ bind-ok _ (ap (λ o. ok_or o extract_tx) p.extracted)
        ∙ guard_passes broadcast _ p.sent
        ∙ ap ok p.id

    -- The steps of the wallet of a mnemonic that is read back from its text.
    fund_sign_broadcast-pay :
        (host : Host) (m : b.Mnemonic) (u : b.Wallet) (script : Bytes) (amount : ℕ)
        → create_bdk_wallet m ≡ ok u
        → fund_sign_broadcast host (b.to_text m) script amount ≡ pay host script amount u
    unfolding fund_sign_broadcast
    fund_sign_broadcast-pay host m u script amount made =
        bind-ok _ (ap (λ o. ok_or o parse_mnemonic) (b.parse-to_text m)) ∙ bind-ok _ made

    -- With a node the id is that of its payment.
    fund_and_broadcast-node :
        ⦃c : Bitcoin⦄ (host : Host) (get_raw : Bytes → Option (Option (List RawOutput)))
        (w : RegistryWallet) (script : Bytes) (amount : ℕ)
        → w.rpc_client ≡ some (node host get_raw)
        → fund_and_broadcast w script amount
          ≡ ok_or (paid (fund_sign_broadcast host w.mnemonic script amount)) broadcast_failed
    unfolding fund_and_broadcast node
    fund_and_broadcast-node ⦃c⦄ host get_raw w script amount over = rw (over) refl

    -- A wallet that `new` made over a node has a BDK wallet whose first external address is the one
    -- it answers, and fund_and_broadcast returns an id exactly when this wallet, synced, builds a
    -- transaction for the script and the amount, signs it completely and the node takes it, and the id
    -- is that of the transaction.
    pub fund_and_broadcast-Funded :
        ⦃c : Bitcoin⦄ (host : Host) (get_raw : Bytes → Option (Option (List RawOutput)))
        (entropy : Bytes) (w : RegistryWallet)
        → new (some (node host get_raw)) entropy ≡ ok w
        → (u : b.Wallet) × ((b.peek_address u external 0 ≡ w.address)
            × ((script : Bytes) (amount : ℕ) (txid : Bytes)
                → (fund_and_broadcast w script amount ≡ ok txid)
                  ↔ Funded host u script amount txid))
    fund_and_broadcast-Funded host get_raw entropy w h =
        let (m, (u, (made, (words, (first, over))))) = new_inverts _ entropy w h in
        let steps : (script : Bytes) (amount : ℕ)
            → fund_and_broadcast w script amount
              ≡ ok_or (paid (pay host script amount u)) broadcast_failed =
          λ script amount.
            fund_and_broadcast-node host get_raw w script amount over
            ∙ ap (λ o. ok_or (paid o) broadcast_failed)
                (ap (λ t. fund_sign_broadcast host t script amount) words
                  ∙ fund_sign_broadcast-pay host m u script amount made) in
        (
          u,
          (
            sym first,
            λ script amount txid. (
              λ e.
                  pay_inverts host u script amount txid
                    (paid_inverts _ (ok_or_inverts _ _ (sym (steps script amount) ∙ e))),
              λ p.
                  steps script amount
                  ∙ ap (λ o. ok_or (paid o) broadcast_failed) (pay-ok host u script amount txid p),
            ),
          ),
        )
