-- ===== src/Examples/Trees.antt =====
-- The transactions for two users.
use veiled.Prelude.{◌≡◌, ◌+◌, refl, arith, List, [], ◌∷◌, map, length, some, ok, replicate}
use veiled.Crypto.Toy.{toy}
use veiled.Bitcoin.{OutPoint, TxOut, TxBitcoin}
use veiled.Tx.{
  sort_keys, insert_key, bytes_le, IdentityTxo, IdentityTree, TreeError, build_tree_with_fee,
  aggregate_keys,
}
use mathlib.Core.List.Perm
use veiled.Tx.Order.{aggregate_keys-perm}
use veiled.Tx.Conserve.{total, pays, AddsAmounts, build_tree_with_fee-conserves}
use veiled.Examples.Serving.{toy_bitcoin}

instance abbrev toy_tx : TxBitcoin
toy_tx = record {
  compute_txid = λ tx. length tx.output ∷ [];
  x_only = λ key. 1 ∷ key;
  x_only_of_secret = λ k. some k;
  sum = λ xs. some (total xs);
  add = λ x y. some (x + y);
}

toy_adds : AddsAmounts toy_tx
toy_adds = record { sum_fits = λ xs h. refl; add_fits = λ x y h. refl }

abbrev users : List IdentityTxo
users = record { pubkey = 3 ∷ []; amount = 700 } ∷ record { pubkey = 2 ∷ []; amount = 300 } ∷ []

abbrev funding : OutPoint
funding = record { txid = replicate 32 9; vout = 1 }

build_tree_with_fee-conserves_example :
    (tree : IdentityTree) × (root_output : TxOut) × ((build_tree_with_fee users funding 50
        ≡ ok tree)
      × ((tree.root_tx.output ≡ root_output ∷ [])
          × ((tree.fanout_tx.input
                ≡ record {
                  previous_output = record { txid = toy_tx.compute_txid tree.root_tx; vout = 0 };
                }
                  ∷ [])
              × (((tree.fanout_tx.output ≡ map pays users)
                    × (root_output.script_pubkey
                        ≡ toy_bitcoin.new_p2tr_tweaked (toy.sha256 (2 ∷ 3 ∷ []))))
                  × (total (map (λ o. o.value) tree.fanout_tx.output) + 50 ≡ root_output.value)))))
unfolding aggregate_keys sort_keys insert_key bytes_le
build_tree_with_fee-conserves_example =
    build_tree_with_fee-conserves users funding 50 _ toy_adds (omega arith) (omega arith) refl

aggregate_keys-perm_example :
    aggregate_keys {E = TreeError} ((3 ∷ []) ∷ (2 ∷ []) ∷ [])
    ≡ aggregate_keys ((2 ∷ []) ∷ (3 ∷ []) ∷ [])
aggregate_keys-perm_example =
    aggregate_keys-perm ((3 ∷ []) ∷ (2 ∷ []) ∷ []) ((2 ∷ []) ∷ (3 ∷ []) ∷ [])
      (Perm.swap (2 ∷ []) (3 ∷ []) [])
