-- ===== src/Flow.antt =====
-- The way of a beneficiary through the program: it reads the CRS and the set from the registry service
-- (registry/service.rs), registers (core/beneficiary.rs), and a merchant receives its registration
-- (core/merchant.rs).
use veiled.Prelude.{
  ℕ, suc, ◌-◌, ◌<◌, ◌≤◌, ◌^◌, ◌%◌, ◌≡◌, refl, sym, ap, ◌∙◌, arith, true, List, [], ◌∷◌, length,
  some, none, get_elem?, Bytes, list_eq, nat_eq, ok, length-tabulate_from, append-nil,
}
use veiled.Prelude.Map
use veiled.Crypto.{Crypto}
use veiled.Bitcoin.{Bitcoin}
use veiled.Types.{Commitment}
use veiled.Merchant.{Merchant}
use veiled.Merchant.Receive.{add_identity, receive_payment_registration}
use veiled.Crs.{Crs, setup as crs_setup, num_merchants}
use veiled.Crs.Codec.{to_bytes, from_bytes}
use veiled.Crs.RoundTrip.{AllReadable, renumbered, from_bytes-to_bytes}
use veiled.Credential.{create}
use veiled.Request.{derive_payment_request_pseudonym}
use veiled.Proof.{PaymentIdentityRegistration}
use veiled.PaymentIdentity.Prove.{ProveError, Nonces}
use veiled.PaymentIdentity.Verify.{verify_name_revelation}
use veiled.PaymentIdentity.Decoded.{AllPoints}
use veiled.Beneficiary.{Beneficiary, register, create_payment_registration}
use veiled.Beneficiary.Register.{create_payment_registration-receive}
use veiled.Service.Handlers.{
  Config, ServiceState, finalize_set, get_crs, get_anonymity_set, pad_set,
}
use veiled.Service.Padding.{pad_set-length, pad_set-AllPoints}
use veiled.Service.Finalize.{finalize_set-serves}

length-renumbered : (i : ℕ) (ms : List Merchant) → length (renumbered i ms) ≡ length ms
length-renumbered i [] = refl
length-renumbered i (m ∷ ms) = ap suc (length-renumbered (suc i) ms)

module _ ⦃c : Crypto⦄ ⦃b : Bitcoin⦄ where
  -- The CRS that a client reads.
  abbrev pub published : ServiceState → Crs
  published state =
      let crs = crs_setup state.registry.merchants state.registry.set_size in
      record crs { merchants = renumbered 1 crs.merchants }

  published-generators :
      (state : ServiceState) → length (published state).generators ≡ num_merchants (published state)
  unfolding crs_setup num_merchants
  published-generators state =
      length-tabulate_from 1 (length state.registry.merchants) _
      ∙ sym (length-renumbered 1 state.registry.merchants)

  pub published-reads :
      (state : ServiceState)
      → state.registry.set_size < 2 ^ 32
      → length state.registry.merchants < 2 ^ 32
      → AllReadable state.registry.merchants
      → from_bytes (to_bytes (crs_setup state.registry.merchants state.registry.set_size))
        ≡ ok (published state)
  unfolding crs_setup
  published-reads state small few readable =
      let crs = crs_setup state.registry.merchants state.registry.set_size in
      let gens : length crs.generators ≡ length state.registry.merchants =
        length-tabulate_from 1 (length state.registry.merchants) _ in
      ap from_bytes (sym (append-nil (to_bytes crs)))
      ∙ from_bytes-to_bytes crs [] (omega arith) small (omega (arith, gens)) (sym gens) readable

  -- A set of 1 to 2^M points is finalized under a transaction id of 32 bytes, with counts that fit in
  -- 32 bits and readable merchants. Then the service serves bytes that are read as a CRS, and a set,
  -- over which a beneficiary with a created credential, whose commitment the set has, makes a
  -- registration for every merchant, and a merchant to which its pseudonym is new accepts it.
  pub finalize_set-receive :
      (config : Config) (state : ServiceState) (dim : ℕ) (set_id txid : Bytes)
      (member : Beneficiary) (merchant_id : ℕ) (nonces : Nonces) (m shop : Merchant)
      → (finalize_set config state set_id).1 ≡ ok txid
      → length txid ≡ 32
      → state.registry.set_size < 2 ^ 32
      → length state.registry.merchants < 2 ^ 32
      → AllReadable state.registry.merchants
      → 1 ≤ length state.registry.anonymity_set
      → length state.registry.anonymity_set ≤ 2 ^ dim
      → AllPoints state.registry.anonymity_set
      → create {E = ProveError}
          (published state)
          member.credential.sk
          member.credential.r
          member.credential.k
          member.credential.friendly_name
        ≡ ok member.credential
      → (register member txid (pad_set (2 ^ dim) state.registry.anonymity_set)).1 ≡ ok tt
      → 1 ≤ merchant_id
      → merchant_id ≤ num_merchants (published state)
      → get_elem? (published state).merchants (merchant_id - 1) ≡ some m
      → Map.get shop.registered_identities
          (derive_payment_request_pseudonym member.credential.r m.name (published state).g)
        ≡ none
      → (bytes : Bytes) × (crs : Crs) × (set : List Commitment)
        × (reg : PaymentIdentityRegistration) × ((get_crs (finalize_set config state set_id).0 txid
              ≡ ok bytes)
            × ((from_bytes bytes ≡ ok crs)
                × ((get_anonymity_set dim (finalize_set config state set_id).0 txid
                      ≡ ok (record {
                        commitments = set;
                        finalized = true;
                        count = length state.registry.anonymity_set % 2 ^ 32;
                        capacity = config.beneficiary_capacity % 2 ^ 32;
                      }))
                    × (((create_payment_registration dim
                            (register member txid set).0
                            crs
                            merchant_id
                            nonces).1
                          ≡ ok reg)
                        × ((verify_name_revelation reg.proof.name_scalar reg.friendly_name ≡ true)
                            × (receive_payment_registration dim shop crs set reg
                                ≡ (add_identity shop reg, ok reg.pseudonym)))))))
  finalize_set-receive config state dim set_id txid member l nonces m shop is_final wide small few
        readable some_in fits points created registered l1 l2 at free =
      let pending = state.registry.anonymity_set in
      let (serves_crs, serves_set) =
        finalize_set-serves config state dim set_id txid is_final wide in
      let (padded, _) = pad_set-length (2 ^ dim) pending some_in fits in
      let (reg, (made, (_, (named, received)))) =
        create_payment_registration-receive {E = ProveError} dim (published state) member txid
          (pad_set (2 ^ dim) pending) l nonces m shop (published-generators state) created padded
          (pad_set-AllPoints (2 ^ dim) pending points) registered l1 l2 at free in
      (
        _,
        _,
        _,
        _,
        (
          serves_crs,
          (published-reads state small few readable, (serves_set, (made, (named, received)))),
        ),
      )
