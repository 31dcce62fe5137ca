-- ===== src/Service/Bounds.antt =====
-- The pending set of the service under each handler of registry/service.rs.
use veiled.Prelude.{
  ℕ, ◌≤◌, ◌<◌, ◌≡◌, refl, sym, ap, ◌∙◌, subst, arith, Bool, true, false, not, ◌||◌, leb, ◌==◌,
  ◌===◌, list_eq, nat_eq, list_beq_iff, contains, List, [], ◌∷◌, ◌++◌, length, length-append,
  AllWidth, Bytes, Outcome, ok, err, panic, guard_inverts, bind_inverts, on_ok, ◌%◌, ◌^◌,
  if◌then◌else◌,
}
use veiled.Crypto.{Crypto}
use veiled.Bitcoin.{Bitcoin, OutPoint}
use veiled.Types.{Commitment}
use veiled.Merchant
use veiled.Merchant.{Merchant}
use veiled.Registry
use veiled.Registry.{Registry, setup, add_beneficiary, beneficiary_count, create_anonymity_set}
use veiled.Registry.Lifecycle.{
  IsWellFormed, new-IsWellFormed, add_merchant-IsWellFormed, setup-IsWellFormed,
  add_beneficiary-IsWellFormed, create_anonymity_set-IsWellFormed,
}
use veiled.Registry.Anchor.{create_anonymity_set_only_id}
use veiled.Service.Wallet.{verify_payment}
use veiled.Service.Store.{RegistryStore, StoreError, null_outpoint, fund, store_set, create_tx}
use veiled.Service.Handlers.{
  Config, Status, payment_failed, ServiceState, outpoint_of, status_of, complete_merchant,
  admit_beneficiary, register_beneficiary, commit_set, finalize_set, invalid_argument,
}

-- No commitment twice.
abbrev pub Distinct : List Commitment → Type 0
Distinct [] = Unit
Distinct (x ∷ xs) = (contains xs x ≡ false) × Distinct xs

contains-snoc :
    (xs : List Commitment) (x y : Commitment)
    → contains (xs ++ x ∷ []) y ≡ (contains xs y || (x === y))
contains-snoc [] x y = ground arith
contains-snoc (z ∷ xs) x y = ground (arith, contains-snoc xs x y)

Distinct-snoc :
    (xs : List Commitment) (y : Commitment)
    → Distinct xs
    → contains xs y ≡ false
    → Distinct (xs ++ y ∷ [])
Distinct-snoc [] y h e = (refl, tt)
Distinct-snoc (x ∷ xs) y (hx, hs) e = (
  contains-snoc xs y x ∙ ground (arith, hx, e, list_beq_iff x y, list_beq_iff y x),
  Distinct-snoc xs y hs (ground (arith, e)),
)

AllWidth-snoc :
    (w : ℕ) (xs : List Bytes) (y : Bytes) → AllWidth w xs → length y ≡ w → AllWidth w (xs ++ y ∷ [])
AllWidth-snoc w [] y h e = (e, tt)
AllWidth-snoc w (x ∷ xs) y (hx, hs) e = (hx, AllWidth-snoc w xs y hs e)

module _ ⦃c : Crypto⦄ where
  pub record IsSound (config : Config) (reg : Registry) : Type 0 where
    pub bounded : length reg.anonymity_set ≤ config.beneficiary_capacity
    pub distinct : Distinct reg.anonymity_set
    pub encoded : AllWidth 33 reg.anonymity_set
    pub well_formed : IsWellFormed reg

  pub new-IsSound :
      (config : Config) (secret_key : Bytes)
      → IsSound config
          (Registry.new config.beneficiary_capacity config.min_sats_per_user secret_key)
  unfolding Registry.new
  new-IsSound config secret_key = record {
    bounded = omega arith;
    distinct = tt;
    encoded = tt;
    well_formed = new-IsWellFormed config.beneficiary_capacity config.min_sats_per_user secret_key;
  }

  -- A registry with the same set is as sound.
  same_set-IsSound :
      (config : Config) (old next : Registry)
      → IsSound config old
      → next.anonymity_set ≡ old.anonymity_set
      → IsWellFormed next
      → IsSound config next
  same_set-IsSound config old next h e w = record {
    bounded = subst (λ s. length s ≤ config.beneficiary_capacity) (sym e) h.bounded;
    distinct = subst Distinct (sym e) h.distinct;
    encoded = subst (AllWidth 33) (sym e) h.encoded;
    well_formed = w;
  }

  added-IsSound :
      (config : Config) (reg : Registry) (phi : Commitment) (op : OutPoint)
      → IsSound config reg
      → length phi ≡ 33
      → length reg.anonymity_set < config.beneficiary_capacity
      → contains reg.anonymity_set phi ≡ false
      → IsSound config (add_beneficiary reg phi op).0
  unfolding add_beneficiary
  added-IsSound config reg phi op h long room new = record {
    bounded = omega (arith, length-append reg.anonymity_set (phi ∷ []));
    distinct = Distinct-snoc reg.anonymity_set phi h.distinct new;
    encoded = AllWidth-snoc 33 reg.anonymity_set phi h.encoded long;
    well_formed = add_beneficiary-IsWellFormed reg phi op h.well_formed;
  }

  pub complete_merchant-IsSound :
      (config : Config) (state : ServiceState) (name origin : Bytes)
      → IsSound config state.registry
      → IsSound config (complete_merchant state name origin).0.registry
  unfolding complete_merchant Registry.add_merchant
  complete_merchant-IsSound config state name origin h = by_merchant (Merchant.new name origin)
    where
      by_merchant :
          (o : Outcome Status Merchant)
          → IsSound config
              (on_ok state o (λ merchant.
                let (registry, id) = Registry.add_merchant state.registry merchant in
                (record state { registry = registry }, id % 2 ^ 32))).0.registry
      by_merchant (ok m) =
          same_set-IsSound config state.registry _ h refl
            (add_merchant-IsWellFormed state.registry m h.well_formed)
      by_merchant (err e) = h
      by_merchant panic = h

  -- What an admitted beneficiary passed.
  admit_beneficiary-inverts :
      (config : Config) (state : ServiceState) (phi funding_txid : Bytes) (funding_vout : ℕ)
      (outpoint : OutPoint)
      → admit_beneficiary config state phi funding_txid funding_vout ≡ ok outpoint
      → (length phi ≡ 33)
        × ((length state.registry.anonymity_set < config.beneficiary_capacity)
            × (contains state.registry.anonymity_set phi ≡ false))
  unfolding admit_beneficiary beneficiary_count
  admit_beneficiary-inverts config state phi txid vout op e =
      let (long, e1) = guard_inverts (length phi == 33) _ _ e in
      let (_, (_, e2)) = bind_inverts (outpoint_of txid vout) _ e1 in
      let (_, (_, e3)) =
        bind_inverts
          (status_of payment_failed (verify_payment state.store.wallet _ config.min_sats_per_user))
          _ e2 in
      let (room, e4) =
        guard_inverts (not (leb config.beneficiary_capacity (length state.registry.anonymity_set)))
          _ _ e3 in
      let (new, _) = guard_inverts (not (contains state.registry.anonymity_set phi)) _ _ e4 in
      (ground arith, (ground arith, ground arith))

  pub register_beneficiary-IsSound :
      (config : Config) (state : ServiceState) (phi funding_txid : Bytes) (funding_vout : ℕ)
      → IsSound config state.registry
      → IsSound config (register_beneficiary config state phi funding_txid funding_vout).0.registry
  unfolding register_beneficiary
  register_beneficiary-IsSound config state phi txid vout h =
      by_outcome (admit_beneficiary config state phi txid vout)
        (λ op e. admit_beneficiary-inverts config state phi txid vout op e)
    where
      by_outcome :
          (m : Outcome Status OutPoint)
          → ((op : OutPoint)
              → m ≡ ok op
              → (length phi ≡ 33)
                × ((length state.registry.anonymity_set < config.beneficiary_capacity)
                    × (contains state.registry.anonymity_set phi ≡ false)))
          → IsSound config
              (on_ok state m (λ outpoint.
                let (registry, index) = add_beneficiary state.registry phi outpoint in
                (record state { registry = registry }, index % 2 ^ 32))).0.registry
      by_outcome (ok op) admitted =
          let (long, (room, new)) = admitted op refl in
          added-IsSound config state.registry phi op h long room new
      by_outcome (err e) admitted = h
      by_outcome panic admitted = h

  module _ ⦃b : Bitcoin⦄ where
    -- The registry after `create_tx` is the one after `create_anonymity_set`.
    create_tx-registry :
        (store : RegistryStore) (reg : Registry) (capacity sats : ℕ)
        → (create_tx store reg capacity sats).0.1 ≡ (create_anonymity_set reg null_outpoint).0
    unfolding create_tx store_set
    create_tx-registry store reg capacity sats =
        by_outcome (fund store capacity sats (create_anonymity_set reg null_outpoint).1)
      where
        by_outcome :
            (m : Outcome StoreError Bytes)
            → (store_set store (create_anonymity_set reg null_outpoint).0 capacity sats m).0.1
              ≡ (create_anonymity_set reg null_outpoint).0
        by_outcome (ok txid) = refl
        by_outcome (err e) = refl
        by_outcome panic = refl

    commit_set-IsSound :
        (config : Config) (state : ServiceState)
        → IsSound config state.registry
        → IsSound config (commit_set config state).0.registry
    unfolding commit_set setup
    commit_set-IsSound config state h =
        subst (IsSound config)
          (sym (
            create_tx-registry state.store (setup state.registry) config.beneficiary_capacity
              config.min_sats_per_user))
          (same_set-IsSound config state.registry _ h
            (ap (λ r. r.anonymity_set)
              (create_anonymity_set_only_id (setup state.registry) null_outpoint))
            (create_anonymity_set-IsWellFormed (setup state.registry) null_outpoint
              (setup-IsWellFormed state.registry h.well_formed)))

    pub finalize_set-IsSound :
        (config : Config) (state : ServiceState) (set_id : Bytes)
        → IsSound config state.registry
        → IsSound config (finalize_set config state set_id).0.registry
    unfolding finalize_set
    finalize_set-IsSound config state set_id h = by_length (length set_id == 32)
      where
        by_length :
            (good : Bool)
            → IsSound config
                (if good then commit_set config state else (state, err invalid_argument)).0.registry
        by_length true = commit_set-IsSound config state h
        by_length false = h
