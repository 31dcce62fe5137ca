-- ===== src/Service/Wallet.antt =====
-- registry/wallet.rs: the check of a payment on the chain, and the funding of a commitment. The
-- node, and what it funds, are the interface of Bitcoin.antt; Funding.antt has the steps.
use veiled.Prelude.{
  ℕ, ◌≤◌, ◌≡◌, ◌↔◌, sym, ap, ◌∙◌, arith, true, not, ltb, ◌===◌, list_eq, nat_eq, beq_refl, Option,
  none, some, List, get_elem?, Bytes, Outcome, ok, ok_or, guard, ◌>>=◌, ◌>>◌, guard_inverts,
  guard_passes, bind_inverts, bind-ok, ok_or_inverts,
}
use veiled.Bitcoin.{OutPoint, Bitcoin, Rpc, RawOutput}

pub record RegistryWallet : Type 0 where
  pub rpc_client : Option Rpc
  pub mnemonic : Bytes
  pub address : Bytes
  pub xonly_bytes : Bytes

pub data WalletError : Type 0 where
  fetch_failed no_vout vout_not_found no_address address_mismatch no_value amount_too_low
        broadcast_failed :
      WalletError

-- The checks of `verify_payment` with a node.
unfoldable pub check_output : Rpc → Bytes → OutPoint → ℕ → Outcome WalletError (Unit {0})
check_output rpc expected_address outpoint required_sats = do
  raw_tx ← ok_or (rpc.get_raw_transaction outpoint.txid) fetch_failed
  vout_array ← ok_or raw_tx no_vout
  output ← ok_or (get_elem? vout_array outpoint.vout) vout_not_found
  script_address ← ok_or output.address no_address
  guard (script_address === expected_address) address_mismatch
  value_sats ← ok_or output.value no_value
  guard (not (ltb value_sats required_sats)) amount_too_low
  ok tt

-- Without a node the payment is not checked.
unfoldable pub verify_payment : RegistryWallet → OutPoint → ℕ → Outcome WalletError (Unit {0})
verify_payment wallet outpoint required_sats = elim wallet.rpc_client [
  | none ↦ ok tt
  | some rpc ↦ check_output rpc wallet.address outpoint required_sats
]

unfoldable pub get_address : RegistryWallet → Bytes × Bytes
get_address wallet = (wallet.address, wallet.xonly_bytes)

-- Without a node the id is the hash of the script.
unfoldable pub fund_and_broadcast :
    ⦃b : Bitcoin⦄ → RegistryWallet → Bytes → ℕ → Outcome WalletError Bytes
fund_and_broadcast ⦃b⦄ wallet output_script output_amount = elim wallet.rpc_client [
  | none ↦ ok (b.sha256d output_script)
  | some rpc ↦
      ok_or (rpc.fund_sign_broadcast wallet.mnemonic output_script output_amount) broadcast_failed
]

-- The output that an outpoint names pays at least the amount to the address.
abbrev pub Pays : Rpc → Bytes → OutPoint → ℕ → Type 0
Pays rpc address outpoint required_sats =
    (outputs : List RawOutput) × ((rpc.get_raw_transaction outpoint.txid ≡ some (some outputs))
      × ((output : RawOutput) × ((get_elem? outputs outpoint.vout ≡ some output)
            × ((output.address ≡ some address)
                × ((value : ℕ) × ((output.value ≡ some value) × (required_sats ≤ value)))))))

at_least : (v s : ℕ) → not (ltb v s) ≡ true → s ≤ v
at_least v s e = ground arith

-- With a node, a payment is accepted exactly when the output that the outpoint names pays the wallet
-- at least the required amount.
pub verify_payment-Pays :
    (wallet : RegistryWallet) (rpc : Rpc) (outpoint : OutPoint) (required_sats : ℕ)
    → wallet.rpc_client ≡ some rpc
    → (verify_payment wallet outpoint required_sats ≡ ok tt)
      ↔ Pays rpc wallet.address outpoint required_sats
unfolding verify_payment check_output
verify_payment-Pays wallet rpc op sats h = (pays, accepts)
  where
    on_chain : verify_payment wallet op sats ≡ check_output rpc wallet.address op sats
    on_chain =
        ap (λ o. elim o [ none ↦ ok tt | some rpc ↦ check_output rpc wallet.address op sats ]) h

    pays : verify_payment wallet op sats ≡ ok tt → Pays rpc wallet.address op sats
    pays e =
        let e0 : check_output rpc wallet.address op sats ≡ ok tt = sym on_chain ∙ e in
        let (raw, (h1, e1)) =
          bind_inverts (ok_or (rpc.get_raw_transaction op.txid) fetch_failed) _ e0 in
        let (outs, (h2, e2)) = bind_inverts (ok_or raw no_vout) _ e1 in
        let (out, (h3, e3)) = bind_inverts (ok_or (get_elem? outs op.vout) vout_not_found) _ e2 in
        let (addr, (h4, e4)) = bind_inverts (ok_or out.address no_address) _ e3 in
        let (same, e5) = guard_inverts (addr === wallet.address) _ _ e4 in
        let (value, (h6, e6)) = bind_inverts (ok_or out.value no_value) _ e5 in
        let (enough, _) = guard_inverts (not (ltb value sats)) _ _ e6 in
        (
          outs,
          (
            ok_or_inverts _ _ h1 ∙ ap some (ok_or_inverts _ _ h2),
            (
              out,
              (
                ok_or_inverts _ _ h3,
                (
                  ok_or_inverts _ _ h4 ∙ ap some ((list_eq.beq_iff _ _).0 same),
                  (value, (ok_or_inverts _ _ h6, at_least value sats enough)),
                ),
              ),
            ),
          ),
        )

    accepts : Pays rpc wallet.address op sats → verify_payment wallet op sats ≡ ok tt
    accepts (outs, (h1, (out, (h2, (h3, (value, (h4, le))))))) =
        let enough : not (ltb value sats) ≡ true = ground arith in
        on_chain
        ∙ bind-ok _ (ap (λ o. ok_or o fetch_failed) h1)
        ∙ bind-ok _ (ap (λ o. ok_or o vout_not_found) h2)
        ∙ bind-ok _ (ap (λ o. ok_or o no_address) h3)
        ∙ guard_passes address_mismatch _ (beq_refl wallet.address)
        ∙ bind-ok _ (ap (λ o. ok_or o no_value) h4)
        ∙ guard_passes amount_too_low _ enough
