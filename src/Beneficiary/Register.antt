-- ===== src/Beneficiary/Register.antt =====
-- The registration of a beneficiary of core/beneficiary.rs with a set and with a merchant.
use veiled.Prelude.{
  Outcome, Bool, ℕ, suc, ◌-◌, ◌^◌, ◌≤◌, ◌≡◌, refl, sym, ap, ◌∙◌, arith, inl, inr, true, leb, ◌&&◌,
  Bool-cases, List, [], ◌∷◌, none, some, map, length, get_elem?, get_or, get_elem?→get_or,
  get_elem?-map, Bytes, list_eq, nat_eq, ◌===◌, if◌then◌else◌, ok, ok_or, expect, guard_passes,
  bind-ok, on_ok_passes, on_ok_inverts, ok_or_inverts, ok_injective, assert,
}
use veiled.Prelude.Map
use veiled.Crypto.{Crypto, ◌·◌}
use veiled.Types.{Commitment}
use veiled.Types.FriendlyName.{to_scalar_bytes}
use veiled.Nullifier.{
  derive_nullifier, derive_all_nullifiers, derive_public_nullifier, length-derive_all_nullifiers,
}
use veiled.Request.{derive_payment_request_pseudonym}
use veiled.Proof.{PaymentIdentityRegistrationProof, PaymentIdentityRegistration}
use veiled.Merchant.{Merchant}
use veiled.Merchant.Receive.{
  ReceiveError, add_identity, receive_payment_registration, receive-accepts,
}
use veiled.Crs.{Crs, num_merchants, names, commit_master_identity}
use veiled.Credential.{MasterCredential, create, public_nullifier, all_nullifier_scalars}
use veiled.Credential.Phi.{length-names, create-ok}
use veiled.PaymentIdentity.Prove.{Nonces, prove_payment_identity_registration}
use veiled.PaymentIdentity.Verify.{verify_payment_identity_registration, verify_name_revelation}
use veiled.PaymentIdentity.Decoded.{AllPoints}
use veiled.PaymentIdentity.Completeness.{commit_master_identity-ok}
use veiled.PaymentIdentity.Honest.{prove-verify}
use veiled.Beneficiary.{
  Beneficiary, no_anonymity_set, no_index, no_set_id, merchant_id_range, position_from, register,
  build_registration, create_payment_registration, prove_result,
}

-- A position that is found holds the commitment.
position_from-found :
    (i j : ℕ) (xs : List Commitment) (phi : Commitment)
    → position_from i xs phi ≡ some j
    → (i ≤ j) × (get_elem? xs (j - i) ≡ some phi)
position_from-found i j [] phi e = absurd (ground arith)
position_from-found i j (x ∷ xs) phi e = elim (Bool-cases (x === phi)) [
  | inl same ↦
      let at : i ≡ j =
        some_injective
          (ap (λ b. if b then some i else position_from (suc i) xs phi) (sym same) ∙ e) in
      (
        omega arith,
        ap (get_elem? (x ∷ xs)) {x = j - i} {y = 0} (omega arith)
            ∙ ap some ((list_eq.beq_iff x phi).0 same),
      )
  | inr other ↦
      let later = ap (λ b. if b then some i else position_from (suc i) xs phi) (sym other) ∙ e in
      let (le, found) = position_from-found (suc i) j xs phi later in
      (omega arith, ap (get_elem? (x ∷ xs)) {x = j - i} {y = suc (j - suc i)} (omega arith) ∙ found)
]
  where
    some_injective : {a b : ℕ} → some a ≡ some b → a ≡ b
    some_injective h = cc

module _ ⦃c : Crypto⦄ where
  length-merchants : (crs : Crs) → length crs.merchants ≡ num_merchants crs
  unfolding num_merchants
  length-merchants crs = refl

  public_nullifier-ok {κ} :
      {E : Type κ} (cred : MasterCredential) (crs : Crs) (l : ℕ) (m : Merchant)
      → 1 ≤ l
      → l ≤ num_merchants crs
      → get_elem? crs.merchants (l - 1) ≡ some m
      → public_nullifier {E = E} cred crs l ≡ ok (derive_public_nullifier cred.sk m.name crs.g)
  unfolding public_nullifier
  public_nullifier-ok cred crs l m l1 l2 at =
      let t : (leb 1 l && leb l (num_merchants crs)) ≡ true = ground arith in
      bind-ok _ (ap assert t) ∙ bind-ok _ (ap expect at)

  -- The public nullifier of merchant l belongs to the scalar that the prover is given.
  public_nullifier-scalar :
      (cred : MasterCredential) (crs : Crs) (l : ℕ) (m : Merchant)
      → get_elem? crs.merchants (l - 1) ≡ some m
      → derive_public_nullifier cred.sk m.name crs.g
        ≡ c.point_to_bytes
            (crs.g · c.bytes_to_scalar (get_or (all_nullifier_scalars cred crs) (l - 1) []))
  unfolding derive_public_nullifier all_nullifier_scalars derive_all_nullifiers names
  public_nullifier-scalar cred crs l m at =
      ap (λ t. c.point_to_bytes (crs.g · c.bytes_to_scalar t))
        (sym (
          get_elem?→get_or (map (derive_nullifier cred.sk) (map (λ p. p.name) crs.merchants))
            (l - 1) [] _
            (get_elem?-map (derive_nullifier cred.sk) (map (λ p. p.name) crs.merchants) (l - 1)
              m.name (get_elem?-map (λ p. p.name) crs.merchants (l - 1) m at))))

  -- A credential that was created has the commitment of its nullifiers.
  created-commits {κ} :
      {E : Type κ} (crs : Crs) (cred : MasterCredential)
      → length crs.generators ≡ num_merchants crs
      → create {E = E} crs cred.sk cred.r cred.k cred.friendly_name ≡ ok cred
      → commit_master_identity crs
          (all_nullifier_scalars cred crs)
          cred.k
          (to_scalar_bytes cred.friendly_name)
        ≡ ok cred.phi
  unfolding all_nullifier_scalars
  created-commits crs cred e is_created =
      commit_master_identity-ok crs (derive_all_nullifiers cred.sk (names crs)) cred.k
        (to_scalar_bytes cred.friendly_name)
        (length-derive_all_nullifiers cred.sk (names crs) ∙ length-names crs ∙ sym e)
      ∙ ap (λ t. ok t.phi)
          (ok_injective
            (sym (create-ok crs cred.sk cred.r cred.k cred.friendly_name e) ∙ is_created))

  -- What a registration holds, once the proof is made.
  abbrev registration_of :
      Beneficiary
      → Crs
      → Bytes
      → ℕ
      → Merchant
      → PaymentIdentityRegistrationProof
      → PaymentIdentityRegistration
  registration_of b crs id l m proof = record {
    pseudonym = derive_payment_request_pseudonym b.credential.r m.name crs.g;
    public_nullifier = derive_public_nullifier b.credential.sk m.name crs.g;
    set_id = id;
    service_index = l;
    friendly_name = b.credential.friendly_name.text;
    proof = proof;
  }

  build_registration-ok :
      (dim : ℕ) (b : Beneficiary) (crs : Crs) (l j : ℕ) (nonces : Nonces) (id : Bytes)
      (set : List Commitment) (m : Merchant) (proof : PaymentIdentityRegistrationProof)
      → b.anonymity_set ≡ some set
      → b.index ≡ some j
      → b.set_id ≡ some id
      → 1 ≤ l
      → l ≤ num_merchants crs
      → get_elem? crs.merchants (l - 1) ≡ some m
      → prove_payment_identity_registration dim crs set j l id b.credential.k
          (all_nullifier_scalars b.credential crs)
          (derive_payment_request_pseudonym b.credential.r m.name crs.g)
          (derive_public_nullifier b.credential.sk m.name crs.g)
          (to_scalar_bytes b.credential.friendly_name)
          nonces
        ≡ ok proof
      → build_registration dim b crs l nonces ≡ ok (registration_of b crs id l m proof)
  unfolding build_registration
  build_registration-ok dim b crs l j nonces id set m proof h1 h2 h3 l1 l2 at proved =
      let t : (leb 1 l && leb l (num_merchants crs)) ≡ true = ground arith in
      bind-ok _ (ap (λ o. ok_or o no_anonymity_set) h1)
      ∙ bind-ok _ (ap (λ o. ok_or o no_index) h2)
      ∙ bind-ok _ (ap (λ o. ok_or o no_set_id) h3)
      ∙ guard_passes merchant_id_range _ t
      ∙ bind-ok _ (ap expect at)
      ∙ bind-ok _ (public_nullifier-ok b.credential crs l m l1 l2 at)
      ∙ bind-ok _ (ap prove_result proved)

  -- The registration that a beneficiary makes under these conditions, and that it verifies.
  pub create_payment_registration-verified {κ μ} :
      {E : Type κ} {F : Type μ} (dim : ℕ) (crs : Crs) (b : Beneficiary) (set_id : Bytes)
      (set : List Commitment) (merchant_id : ℕ) (nonces : Nonces) (m : Merchant)
      → length crs.generators ≡ num_merchants crs
      → create {E = E} crs b.credential.sk b.credential.r b.credential.k b.credential.friendly_name
        ≡ ok b.credential
      → length set ≡ 2 ^ dim
      → AllPoints set
      → (register b set_id set).1 ≡ ok tt
      → 1 ≤ merchant_id
      → merchant_id ≤ num_merchants crs
      → get_elem? crs.merchants (merchant_id - 1) ≡ some m
      → (reg : PaymentIdentityRegistration) × (((create_payment_registration dim
              (register b set_id set).0
              crs
              merchant_id
              nonces).1
            ≡ ok reg)
          × ((reg.pseudonym ≡ derive_payment_request_pseudonym b.credential.r m.name crs.g)
              × ((reg.public_nullifier ≡ derive_public_nullifier b.credential.sk m.name crs.g)
                  × (((reg.set_id ≡ set_id) × (reg.service_index ≡ merchant_id))
                      × ((verify_name_revelation reg.proof.name_scalar reg.friendly_name ≡ true)
                          × ((reg.friendly_name ≡ b.credential.friendly_name.text)
                              × ◌≡◌ {A = Outcome F Bool}
                                  (verify_payment_identity_registration dim crs set reg)
                                  (ok true)))))))
  unfolding register create_payment_registration verify_payment_identity_registration
      verify_name_revelation to_scalar_bytes
  create_payment_registration-verified {F = F} dim crs b id set l nonces m ge created set_len points
        registered l1 l2 at =
      let cred = b.credential in
      let (j, (position, (next, _))) = on_ok_inverts b _ _ tt registered in
      let (_, found) = position_from-found 0 j set cred.phi (ok_or_inverts _ _ position) in
      let (proof, (proved, verified, named)) =
        prove-verify {E = F} dim crs set j l id cred.k (all_nullifier_scalars cred crs)
          (derive_payment_request_pseudonym cred.r m.name crs.g)
          (derive_public_nullifier cred.sk m.name crs.g) (to_scalar_bytes cred.friendly_name) nonces
          cred.phi ge set_len points l1 l2 (created-commits crs cred ge created)
          (ap (get_elem? set) {x = j} {y = j - 0} (omega arith) ∙ found)
          (public_nullifier-scalar cred crs l m at) in
      let reg = registration_of b crs id l m proof in
      (
        reg,
        (
          ap (λ t. (create_payment_registration dim t crs l nonces).1) next
              ∙ ap (λ t. t.1)
                  (on_ok_passes _ _ (
                    build_registration-ok dim _ crs l j nonces id set m proof refl refl refl l1 l2
                      at proved)),
          (refl, (refl, ((refl, refl), ((list_eq.beq_iff _ _).1 (sym named), (refl, verified))))),
        ),
      )

  -- A beneficiary with a created credential that registers a set of 2^M points with its commitment in
  -- it makes a registration for every merchant of the CRS and all nonces: it carries the pseudonym for
  -- the name of the merchant and reveals the name that the proof commits to, and a merchant to which
  -- the pseudonym is new accepts it, stores it and returns the pseudonym.
  pub create_payment_registration-receive {κ} :
      {E : Type κ} (dim : ℕ) (crs : Crs) (b : Beneficiary) (set_id : Bytes) (set : List Commitment)
      (merchant_id : ℕ) (nonces : Nonces) (m shop : Merchant)
      → length crs.generators ≡ num_merchants crs
      → create {E = E} crs b.credential.sk b.credential.r b.credential.k b.credential.friendly_name
        ≡ ok b.credential
      → length set ≡ 2 ^ dim
      → AllPoints set
      → (register b set_id set).1 ≡ ok tt
      → 1 ≤ merchant_id
      → merchant_id ≤ num_merchants crs
      → get_elem? crs.merchants (merchant_id - 1) ≡ some m
      → Map.get shop.registered_identities
          (derive_payment_request_pseudonym b.credential.r m.name crs.g)
        ≡ none
      → (reg : PaymentIdentityRegistration) × (((create_payment_registration dim
              (register b set_id set).0
              crs
              merchant_id
              nonces).1
            ≡ ok reg)
          × ((reg.pseudonym ≡ derive_payment_request_pseudonym b.credential.r m.name crs.g)
              × ((verify_name_revelation reg.proof.name_scalar reg.friendly_name ≡ true)
                  × (receive_payment_registration dim shop crs set reg
                      ≡ (add_identity shop reg, ok reg.pseudonym)))))
  create_payment_registration-receive {E = E} dim crs b id set l nonces m shop ge created set_len
        points registered l1 l2 at free =
      let (reg, (made, (pseudonym, (_, (_, (named, (_, verified))))))) =
        create_payment_registration-verified {E = E} {F = ReceiveError} dim crs b id set l nonces m
          ge created set_len points registered l1 l2 at in
      let new : Map.get shop.registered_identities reg.pseudonym ≡ none =
        ap (Map.get shop.registered_identities) pseudonym ∙ free in
      (reg, (made, (pseudonym, (named, receive-accepts dim shop crs set reg new verified))))
