-- ===== src/Tx/Conserve.antt =====
-- The values of the two transactions of core/tx.rs.
use veiled.Prelude.{
  ℕ, ◌+◌, ◌<◌, ◌≤◌, ◌≡◌, refl, ap, ◌∙◌, arith, List, [], ◌∷◌, map, length, some, ◌^◌, Bytes, not,
  ltb, true, ok, guard_passes, bind-ok, expect,
}
use veiled.Crypto.{Crypto}
use veiled.Bitcoin.{OutPoint, TxOut, Bitcoin, TxBitcoin}
use veiled.Tx.{
  IdentityTxo, IdentityTree, TreeError, need_two_users, aggregate_keys, create_root_tx, user_output,
  create_fanout_tx, build_tree_with_fee,
}

abbrev pub total : List ℕ → ℕ
total [] = 0
total (x ∷ xs) = x + total xs

-- What the crate says of sums of amounts that fit in 64 bits.
pub record AddsAmounts (t : TxBitcoin) : Type 0 where
  pub sum_fits : (xs : List ℕ) → total xs < 2 ^ 64 → t.sum xs ≡ some (total xs)
  pub add_fits : (x y : ℕ) → x + y < 2 ^ 64 → t.add x y ≡ some (x + y)

abbrev pub amounts : List IdentityTxo → List ℕ
amounts users = map (λ u. u.amount) users

module _ ⦃b : Bitcoin⦄ ⦃t : TxBitcoin⦄ where
  -- The output that pays a user.
  abbrev pub pays : IdentityTxo → TxOut
  pays u = record { value = u.amount; script_pubkey = b.new_p2tr_tweaked (t.x_only u.pubkey) }

  outputs-pay : (users : List IdentityTxo) → map user_output users ≡ map pays users
  unfolding user_output
  outputs-pay [] = refl
  outputs-pay (u ∷ us) = ap (λ xs. pays u ∷ xs) (outputs-pay us)

  output_values :
      (users : List IdentityTxo) → map (λ o. o.value) (map user_output users) ≡ amounts users
  unfolding user_output
  output_values [] = refl
  output_values (u ∷ us) = ap (λ xs. u.amount ∷ xs) (output_values us)

  -- For at least two users whose amounts and the fee fit in 64 bits, and whose keys can be
  -- aggregated, the tree is built: the root has one output, to the aggregate key, the fan-out spends
  -- this output and has one output for each user, in the order of the users, of its amount and to its
  -- own key, and the values that the fan-out pays and the fee make up the value of the output of the
  -- root.
  pub build_tree_with_fee-conserves :
      ⦃c : Crypto⦄ (users : List IdentityTxo) (funding_outpoint : OutPoint) (fee : ℕ) (key : Bytes)
      → AddsAmounts t
      → 2 ≤ length users
      → total (amounts users) + fee < 2 ^ 64
      → aggregate_keys {E = TreeError} (map (λ u. u.pubkey) users) ≡ ok key
      → (tree : IdentityTree) × (root_output : TxOut) × ((build_tree_with_fee users funding_outpoint
              fee
            ≡ ok tree)
          × ((tree.root_tx.output ≡ root_output ∷ [])
              × ((tree.fanout_tx.input
                    ≡ record {
                      previous_output = record { txid = t.compute_txid tree.root_tx; vout = 0 };
                    }
                      ∷ [])
                  × (((tree.fanout_tx.output ≡ map pays users)
                        × (root_output.script_pubkey ≡ b.new_p2tr_tweaked key))
                      × (total (map (λ o. o.value) tree.fanout_tx.output) + fee
                          ≡ root_output.value)))))
  unfolding build_tree_with_fee create_root_tx create_fanout_tx
  build_tree_with_fee-conserves users op fee key adds two fits aggregated =
      let enough : not (ltb (length users) 2) ≡ true = ground arith in
      let sums = adds.sum_fits (amounts users) (omega arith) in
      let adds_up = adds.add_fits (total (amounts users)) fee fits in
      (
        _,
        _,
        (
          guard_passes need_two_users _ enough
              ∙ bind-ok _ aggregated
              ∙ bind-ok _ (ap expect sums)
              ∙ bind-ok _ (ap expect adds_up),
          (
            refl,
            (refl, ((outputs-pay users, refl), ap (λ xs. total xs + fee) (output_values users))),
          ),
        ),
      )
