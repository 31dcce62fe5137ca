-- ===== src/Examples/Flows.antt =====
-- Bob, from the finalized set to the second merchant.
use veiled.Prelude.{
  ◌≡◌, refl, arith, true, List, [], ◌∷◌, replicate, Bytes, list_eq, nat_eq, decimal, ok,
}
use veiled.Crypto.Toy.{toy}
use veiled.Types.{Commitment}
use veiled.Types.FriendlyName.{to_scalar_bytes}
use veiled.Nullifier.{derive_all_nullifiers, derive_nullifier}
use veiled.Merchant.Receive.{add_identity, receive_payment_registration}
use veiled.Crs.{Crs, setup as crs_setup, generator_tag, num_merchants, names, add_values}
use veiled.Crs.Codec.{from_bytes}
use veiled.Credential.Phi.{create-ok}
use veiled.Proof.{PaymentIdentityRegistration}
use veiled.PaymentIdentity.Verify.{verify_name_revelation}
use veiled.Registry
use veiled.Registry.{anchor, create_anonymity_set}
use veiled.Registry.Merkle.{
  merkle_root, next_power_of_two, power_from, pad_leaves, leaves, climb, next_level,
}
use veiled.Beneficiary.{register, create_payment_registration}
use veiled.Service.Wallet.{fund_and_broadcast}
use veiled.Service.Store
use veiled.Service.Store.{create_tx, store_set, fund}
use veiled.Service.Handlers.{
  default_config, ServiceState, finalize_set, commit_set, get_crs, get_anonymity_set, pad_set,
}
use veiled.Flow.{finalize_set-receive}
use veiled.Examples.Data.{cafe, two_merchants, bob, anonymity_set, nonces}
use veiled.Examples.Registration.{bob_member, both_points}
use veiled.Examples.Formats.{both_readable}
use veiled.Examples.Serving.{toy_bitcoin, at_start}

abbrev full : ServiceState
full = record at_start {
  registry = record (Registry.new 2 1000 (1 ∷ [])) {
    merchants = two_merchants;
    anonymity_set = anonymity_set;
  };
}

abbrev commitment_txid : Bytes
commitment_txid = replicate 32 7

finalize_set-receive_example :
    (bytes : Bytes) × (crs : Crs) × (set : List Commitment) × (reg : PaymentIdentityRegistration)
    × ((get_crs (finalize_set default_config full commitment_txid).0 commitment_txid ≡ ok bytes)
        × ((from_bytes bytes ≡ ok crs)
            × ((get_anonymity_set 1
                    (finalize_set default_config full commitment_txid).0
                    commitment_txid
                  ≡ ok (record { commitments = set; finalized = true; count = 2; capacity = 4 }))
                × (((create_payment_registration 1
                        (register bob_member commitment_txid set).0
                        crs
                        2
                        nonces).1
                      ≡ ok reg)
                    × ((verify_name_revelation reg.proof.name_scalar reg.friendly_name ≡ true)
                        × (receive_payment_registration 1 cafe crs set reg
                            ≡ (add_identity cafe reg, ok reg.pseudonym)))))))
unfolding finalize_set commit_set create_tx store_set fund create_anonymity_set anchor
    fund_and_broadcast Registry.new Registry.setup Store.new merkle_root climb next_level pad_leaves
    leaves next_power_of_two power_from crs_setup num_merchants register add_values
    derive_all_nullifiers derive_nullifier names to_scalar_bytes generator_tag decimal pad_set
finalize_set-receive_example =
    finalize_set-receive default_config full 1 commitment_txid commitment_txid bob_member 2 nonces
      cafe cafe refl refl (omega arith) (omega arith) both_readable (omega arith) (omega arith)
      both_points (create-ok _ bob.sk bob.r bob.k bob.friendly_name refl) refl (omega arith)
      (omega arith) refl refl
