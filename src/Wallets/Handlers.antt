-- ===== src/Wallets/Handlers.antt =====
-- The handlers of bin/veiled_wallet.rs. Random entropy is an argument; what is logged is left out, but
-- for the slices of parameters that can panic.
use veiled.Prelude.{
  ℕ, ◌+◌, ◌-◌, ◌%◌, ◌^◌, Bool, true, false, ltb, leb, ◌==◌, ◌&&◌, List, ◌++◌, map, length, tabulate,
  Option, none, some, Bytes, codes, is_char_boundary, Outcome, ok, err, panic, ok_or, guard, assert,
  if◌then◌else◌,
}
use veiled.Wallets.Bdk.{
  Bdk, StateJson, Host, WalletState, CachedBalance, Balance, CanonicalTx, KeychainKind, external,
  internal,
}
use veiled.Wallets.Io.{
  WalletError, rpc_failed, mnemonic_error, master_key, create_wallet, build_descriptor,
  invalid_address, wrong_network, build_tx, sign, signing_incomplete, extract_tx, broadcast,
  generatetoaddress, getrawtransaction, scantxoutset, Io, load_state, save_state, save_checkpoint,
  with_checkpoint, lift, ignore, ◌>>=◌, ◌>>◌,
}
use veiled.Wallets.Json.{
  Rpc, CreateWalletParams, GetBalanceParams, GetAddressParams, SendParams, FaucetParams,
  GetTxParams, GetTxHistoryParams, HistoryEntry, Response, wallet_created, wallet_existing,
  balance_read, address_revealed, transaction_sent, blocks_mined, transaction_read, history_read,
}
use veiled.Wallets.Sync.{recreate_wallet, sync_wallet}

-- `unwrap_or_else` and `unwrap_or`
abbrev pub unwrap_or {ℓ} : {A : Type ℓ} → Option A → A → A
unwrap_or none d = d
unwrap_or (some a) d = a

-- The amounts that get-balance answers and caches.
abbrev pub cached_of : Balance → CachedBalance
cached_of balance =
    let unconfirmed = (balance.untrusted_pending + balance.trusted_pending) % 2 ^ 64 in
    record {
      confirmed = balance.confirmed;
      unconfirmed = unconfirmed;
      total = (balance.confirmed + unconfirmed) % 2 ^ 64;
    }

-- An entry of the history: `received as i64 - sent as i64`, and its absolute value.
unfoldable pub entry_of : CanonicalTx → HistoryEntry
entry_of tx =
    let net = (tx.received + (2 ^ 64 - tx.sent)) % 2 ^ 64 in
    let incoming = ltb net (2 ^ 63) in
    record {
      txid = tx.txid;
      amount_sats = if incoming then net else 2 ^ 64 - net;
      incoming = incoming;
      confirmations = if tx.is_confirmed then 1 else 0;
    }

module _ ⦃b : Bdk⦄ where
  unfoldable pub rpc_client : Host → Rpc → Outcome WalletError (Unit {0})
  rpc_client host rpc =
      guard
        (host.connects (unwrap_or rpc.rpc_url (codes "http://localhost:18443"))
          (unwrap_or rpc.rpc_user (codes "veiled")) (unwrap_or rpc.rpc_pass (codes "veiled")))
        rpc_failed

  -- `format!("addr({})", …)` of the i-th address
  unfoldable pub addr : b.Wallet → KeychainKind → ℕ → Bytes
  addr wallet keychain i = codes "addr(" ++ (b.peek_address wallet keychain i ++ codes ")")

  -- What scantxoutset is asked for: the external addresses with some lookahead, and change addresses.
  unfoldable pub descriptors : b.Wallet → ℕ → List Bytes
  descriptors wallet address_index =
      let ext_count = ((if leb address_index 5 then 5 else address_index) + 5) % 2 ^ 32 in
      tabulate ext_count (addr wallet external) ++ tabulate 20 (addr wallet internal)

  -- The log cuts the address after 20 bytes and before the last 6.
  unfoldable pub handle_faucet : Host → FaucetParams → Io Response
  handle_faucet host p = do
    lift (rpc_client host p.rpc)
    let blocks = unwrap_or p.blocks 1
    lift (assert (is_char_boundary p.address 20))
    lift (assert (is_char_boundary p.address (length p.address - 6)))
    block_hashes ← lift (ok_or (host.generatetoaddress blocks p.address) generatetoaddress)
    lift (ok (blocks_mined blocks block_hashes))

  unfoldable pub handle_get_tx : Host → GetTxParams → Io Response
  handle_get_tx host p = do
    lift (rpc_client host p.rpc)
    raw ← lift (ok_or (host.getrawtransaction p.txid) getrawtransaction)
    lift (ok (transaction_read p.txid raw))

module _ ⦃b : Bdk⦄ ⦃j : StateJson⦄ where
  -- The steps of create-wallet when there is no state.
  unfoldable pub make_wallet : Host → Bytes → CreateWalletParams → Io Response
  make_wallet host entropy p = do
    mnemonic ← lift (ok_or (b.from_entropy entropy) mnemonic_error)
    xprv ← lift (ok_or (b.new_master mnemonic) master_key)
    wallet ← lift (ok_or (b.create xprv) create_wallet)
    let address = b.peek_address wallet external 0
    descriptor ← lift (ok_or (b.descriptor xprv external) build_descriptor)
    change_descriptor ← lift (ok_or (b.descriptor xprv internal) build_descriptor)
    save_state host p.state_path (record {
      mnemonic = b.to_text mnemonic;
      wallet_name = p.name;
      descriptor = descriptor;
      change_descriptor = change_descriptor;
      address = address;
      address_index = 0;
      network = codes "regtest";
      checkpoint_height = none;
      checkpoint_hash = none;
      cached_balance = none;
    })
    lift (ok (wallet_created address (b.to_text mnemonic) p.name))

  -- `if let Ok(state) = load_state(…)`
  abbrev pub existing_or : Outcome WalletError WalletState → Io Response → Io Response
  existing_or (ok state) make =
      lift (ok (wallet_existing state.address state.mnemonic state.wallet_name))
  existing_or (err _) make = make
  existing_or Outcome.panic make = lift panic

  unfoldable pub handle_create_wallet : Host → Bytes → CreateWalletParams → Io Response
  handle_create_wallet host entropy p files =
      let (files, loaded) = load_state host p.state_path files in
      existing_or loaded (make_wallet host entropy p) files

  unfoldable pub handle_get_balance : Host → GetBalanceParams → Io Response
  handle_get_balance host p = do
    state ← load_state host p.state_path
    lift (rpc_client host p.rpc)
    recreated ← lift (recreate_wallet state)
    wallet ← lift (sync_wallet host recreated)
    let cached = cached_of (b.balance wallet)
    state ← load_state host p.state_path
    ignore (
        save_state host p.state_path (record (with_checkpoint state (b.latest_checkpoint wallet)) {
          cached_balance = some cached;
        }))
    lift (ok (balance_read cached))

  -- Only the first address that is not revealed is asked of the new wallet.
  unfoldable pub handle_get_address : Host → GetAddressParams → Io Response
  handle_get_address host p = do
    state ← load_state host p.state_path
    wallet ← lift (recreate_wallet state)
    let (index, address) = b.reveal_next_address wallet
    save_state host p.state_path (record state { address_index = index; address = address })
    lift (ok (address_revealed address))

  -- The second synchronization of a send, from genesis, when nothing is spendable.
  unfoldable pub resync : Host → Bytes → b.Wallet → Bool → Io b.Wallet
  resync host path wallet false = lift (ok wallet)
  resync host path wallet true = do
    state ← load_state host path
    let fresh_state = record state { checkpoint_height = none; checkpoint_hash = none }
    save_state host path fresh_state
    recreated ← lift (recreate_wallet fresh_state)
    synced ← lift (sync_wallet host recreated)
    ignore (save_checkpoint host path synced)
    lift (ok synced)

  unfoldable pub handle_send : Host → SendParams → Io Response
  handle_send host p = do
    state ← load_state host p.state_path
    lift (assert (is_char_boundary p.to_address 20))
    lift (rpc_client host p.rpc)
    recreated ← lift (recreate_wallet state)
    synced ← lift (sync_wallet host recreated)
    ignore (save_checkpoint host p.state_path synced)
    let balance = b.balance synced
    let total = (balance.confirmed + balance.trusted_pending + balance.untrusted_pending) % 2 ^ 64
    wallet ← resync host p.state_path synced ((total == 0) && ltb 0 p.amount_sats)
    address ← lift (ok_or (b.address_from_str p.to_address) invalid_address)
    script ← lift (ok_or (b.require_regtest address) wrong_network)
    psbt ← lift (ok_or (b.build_tx wallet script p.amount_sats) build_tx)
    signed ← lift (ok_or (b.sign wallet psbt) sign)
    lift (guard signed.0 signing_incomplete)
    tx ← lift (ok_or (b.extract_tx signed.1) extract_tx)
    lift (guard (host.send_raw_transaction tx) broadcast)
    lift (ok (transaction_sent (b.compute_txid tx)))

  unfoldable pub handle_get_tx_history : Host → GetTxHistoryParams → Io Response
  handle_get_tx_history host p = do
    state ← load_state host p.state_path
    lift (rpc_client host p.rpc)
    recreated ← lift (recreate_wallet state)
    wallet ← lift (sync_wallet host recreated)
    ignore (save_checkpoint host p.state_path wallet)
    lift (ok (history_read (map entry_of (b.transactions wallet))))

  -- The closure that updates the cached balance.
  unfoldable pub cache_balance : Host → Bytes → CachedBalance → Io (Unit {0})
  cache_balance host path cached = do
    s ← load_state host path
    save_state host path (record s { cached_balance = some cached })

  unfoldable pub handle_get_balance_fast : Host → GetBalanceParams → Io Response
  handle_get_balance_fast host p = do
    state ← load_state host p.state_path
    lift (rpc_client host p.rpc)
    wallet ← lift (recreate_wallet state)
    scan_result ←
        lift (ok_or (host.scantxoutset (descriptors wallet state.address_index)) scantxoutset)
    let total_sats = unwrap_or scan_result 0
    let cached : CachedBalance = record {
      confirmed = total_sats;
      unconfirmed = 0;
      total = total_sats;
    }
    ignore (cache_balance host p.state_path cached)
    lift (ok (balance_read cached))
