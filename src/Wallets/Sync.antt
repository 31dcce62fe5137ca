-- ===== src/Wallets/Sync.antt =====
-- `recreate_wallet` and `sync_wallet` of bin/veiled_wallet.rs.
use veiled.Prelude.{
  ℕ, List, [], ◌∷◌, Option, none, some, Bytes, is_char_boundary, Outcome, ok, err, ok_or, assert,
  expect, if◌then◌else◌, ◌>>=◌, ◌>>◌,
}
use veiled.Wallets.Bdk.{Bdk, Host, WalletState}
use veiled.Wallets.Io.{
  WalletError, parse_mnemonic, master_key, create_wallet, sync_block, apply_block, sync_mempool,
}

module _ ⦃b : Bdk⦄ where
  -- The saved checkpoint is put into the chain; the log cuts its hash at 12 bytes.
  unfoldable pub insert_block : b.Wallet → ℕ → Bytes → Outcome WalletError b.Wallet
  insert_block wallet height hash = do
    restored ← expect (b.insert_checkpoint wallet (record { height = height; hash = hash }))
    assert (is_char_boundary hash 12)
    ok restored

  -- The checkpoint that the state saved, when its hash is read.
  unfoldable pub restore_checkpoint :
      b.Wallet → Option ℕ → Option Bytes → Outcome WalletError b.Wallet
  restore_checkpoint wallet (some height) (some hash) =
      if b.is_block_hash hash then insert_block wallet height hash else ok wallet
  restore_checkpoint wallet _ _ = ok wallet

  unfoldable pub recreate_wallet : WalletState → Outcome WalletError b.Wallet
  recreate_wallet state = do
    mnemonic ← ok_or (b.parse state.mnemonic) parse_mnemonic
    xprv ← ok_or (b.new_master mnemonic) master_key
    wallet ← ok_or (b.create xprv) create_wallet
    let revealed = b.reveal_addresses_to wallet state.address_index
    restore_checkpoint revealed state.checkpoint_height state.checkpoint_hash

  -- The loop over the blocks of the emitter.
  unfoldable pub apply_blocks : b.Wallet → List (Option b.Block) → Outcome WalletError b.Wallet
  apply_blocks wallet [] = ok wallet
  apply_blocks wallet (none ∷ _) = err sync_block
  apply_blocks wallet (some block ∷ events) = elim (b.apply_block_connected_to wallet block) [
    | none ↦ err apply_block
    | some next ↦ apply_blocks next events
  ]

  unfoldable pub sync_wallet : Host → b.Wallet → Outcome WalletError b.Wallet
  sync_wallet host wallet = do
    synced ← apply_blocks wallet (host.blocks (b.latest_checkpoint wallet))
    txs ← ok_or host.mempool sync_mempool
    ok (b.apply_unconfirmed_txs synced txs)
