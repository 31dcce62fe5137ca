-- ===== src/Tx.antt =====
-- core/tx.rs: the root transaction and the fan-out transaction of a group of users. Signing is left
-- to the crates bitcoin and secp256k1.
pub mod Conserve
pub mod Order
use veiled.Prelude.{
  ℕ, Bool, true, false, List, [], ◌∷◌, ◌++◌, length, map, Option, none, some, Bytes, flatten, ltb,
  ◌==◌, ◌||◌, ◌&&◌, if◌then◌else◌, Outcome, ok, guard, expect, not, ◌>>=◌, ◌>>◌,
}
use veiled.Crypto.{Crypto}
use veiled.Bitcoin.{OutPoint, TxIn, TxOut, Transaction, Bitcoin, TxBitcoin}

pub record IdentityTxo : Type 0 where
  pub pubkey : Bytes
  pub amount : ℕ

pub record IdentityTree : Type 0 where
  pub root_tx : Transaction
  pub fanout_tx : Transaction
  pub users : List IdentityTxo

pub data TreeError : Type 0 where
  need_two_users : TreeError

-- The order of byte arrays.
unfoldable pub bytes_le : Bytes → Bytes → Bool
bytes_le [] ys = true
bytes_le (x ∷ xs) [] = false
bytes_le (x ∷ xs) (y ∷ ys) = ltb x y || ((x == y) && bytes_le xs ys)

unfoldable pub insert_key : Bytes → List Bytes → List Bytes
insert_key k [] = k ∷ []
insert_key k (x ∷ xs) = let rest = insert_key k xs in if bytes_le k x then k ∷ x ∷ xs else x ∷ rest

-- `sort_by_key(|k| k.serialize())`
unfoldable pub sort_keys : List Bytes → List Bytes
sort_keys [] = []
sort_keys (k ∷ ks) = insert_key k (sort_keys ks)

unfoldable pub aggregate_keys {κ} :
    ⦃c : Crypto⦄ → ⦃t : TxBitcoin⦄ → {E : Type κ} → List Bytes → Outcome E Bytes
aggregate_keys ⦃c⦄ ⦃t⦄ keys = expect (t.x_only_of_secret (c.sha256 (flatten (sort_keys keys))))

unfoldable pub value {κ} : ⦃t : TxBitcoin⦄ → {E : Type κ} → IdentityTree → Outcome E ℕ
value ⦃t⦄ tree = expect (t.sum (map (λ u. u.amount) tree.users))

unfoldable pub branch : IdentityTree → ℕ → Option (List Transaction)
branch tree user_index =
    if ltb user_index (length tree.users) then some (tree.root_tx ∷ tree.fanout_tx ∷ []) else none

module _ ⦃b : Bitcoin⦄ where
  unfoldable pub create_root_tx : OutPoint → Bytes → ℕ → Transaction
  create_root_tx funding_outpoint aggregate_key total_amount = record {
    version = 2;
    lock_time = 0;
    input = record { previous_output = funding_outpoint } ∷ [];
    output = record { value = total_amount; script_pubkey = b.new_p2tr_tweaked aggregate_key } ∷ [];
  }

  -- The output of a user.
  unfoldable pub user_output : ⦃t : TxBitcoin⦄ → IdentityTxo → TxOut
  user_output ⦃t⦄ u = record {
    value = u.amount;
    script_pubkey = b.new_p2tr_tweaked (t.x_only u.pubkey);
  }

  unfoldable pub create_fanout_tx : ⦃t : TxBitcoin⦄ → OutPoint → List IdentityTxo → Transaction
  create_fanout_tx root_outpoint users = record {
    version = 2;
    lock_time = 0;
    input = record { previous_output = root_outpoint } ∷ [];
    output = map user_output users;
  }

  unfoldable pub build_tree_with_fee :
      ⦃c : Crypto⦄
      → ⦃t : TxBitcoin⦄ → List IdentityTxo
      → OutPoint
      → ℕ
      → Outcome TreeError IdentityTree
  build_tree_with_fee ⦃c⦄ ⦃t⦄ users funding_outpoint fee = do
    guard (not (ltb (length users) 2)) need_two_users
    agg_key ← aggregate_keys (map (λ u. u.pubkey) users)
    user_total ← expect (t.sum (map (λ u. u.amount) users))
    root_output_value ← expect (t.add user_total fee)
    let root_tx = create_root_tx funding_outpoint agg_key root_output_value
    let root_outpoint : OutPoint = record { txid = t.compute_txid root_tx; vout = 0 }
    ok (record {
      root_tx = root_tx;
      fanout_tx = create_fanout_tx root_outpoint users;
      users = users;
    })

  unfoldable pub build_identity_tree :
      ⦃c : Crypto⦄ → ⦃t : TxBitcoin⦄ → List IdentityTxo → OutPoint → Outcome TreeError IdentityTree
  build_identity_tree users funding_outpoint = build_tree_with_fee users funding_outpoint 0
