-- ===== src/Beneficiary/Sized.antt =====
-- The sizes of a registration that a beneficiary of core/beneficiary.rs makes.
use veiled.Prelude.{
  ℕ, ◌-◌, ◌≡◌, refl, sym, ap, ◌∙◌, subst, leb, ◌&&◌, length, get_elem?, some, Bytes, AllWidth,
  Outcome, ok, err, panic, ok_or, ok_or_inverts, expect, guard_inverts, assert_inverts,
  bind_inverts, ok_injective, on_ok_inverts,
}
use veiled.Crypto.{Crypto}
use veiled.Types.FriendlyName.{to_scalar_bytes}
use veiled.Nullifier.{derive_nullifier, derive_all_nullifiers, derive_public_nullifier}
use veiled.Request.{derive_payment_request_pseudonym}
use veiled.Proof.{PaymentIdentityRegistration}
use veiled.Proof.RoundTrip.{IsSized}
use veiled.Crs.{Crs, num_merchants, names}
use veiled.Credential.{MasterCredential, all_nullifier_scalars, public_nullifier}
use veiled.PaymentIdentity.Prove.{ProveError, Nonces}
use veiled.PaymentIdentity.Sized.{AllWidth-map, prove-IsSized}
use veiled.Beneficiary.{
  Beneficiary, no_anonymity_set, no_index, no_set_id, prove_result, build_registration,
  create_payment_registration,
}

prove_result_inverts :
    {A : Type 0} {a : A} (m : Outcome ProveError A) → prove_result m ≡ ok a → m ≡ ok a
prove_result_inverts (ok b) e = ap ok (ok_injective e)
prove_result_inverts (err x) e = absurd (cc e)
prove_result_inverts panic e = absurd (cc e)

-- The registration names the set and the merchant that were asked for, and its arrays have their sizes.
pub record IsRegistration (dim : ℕ) (id : Bytes) (l : ℕ) (name : Bytes)
    (reg : PaymentIdentityRegistration) : Type 0 where
  pub pseudonym_length : length reg.pseudonym ≡ 33
  pub nullifier_length : length reg.public_nullifier ≡ 33
  pub for_set : reg.set_id ≡ id
  pub for_service : reg.service_index ≡ l
  pub with_name : reg.friendly_name ≡ name
  pub proof_sized : IsSized dim reg.proof

module _ ⦃c : Crypto⦄ where
  public_nullifier-length {κ} :
      {E : Type κ} (cred : MasterCredential) (crs : Crs) (l : ℕ) (nul : Bytes)
      → public_nullifier {E = E} cred crs l ≡ ok nul
      → length nul ≡ 33
  unfolding public_nullifier derive_public_nullifier
  public_nullifier-length cred crs l nul e =
      let (_, e1) = assert_inverts (leb 1 l && leb l (num_merchants crs)) _ e in
      let (m, (_, e2)) = bind_inverts (expect (get_elem? crs.merchants (l - 1))) _ e1 in
      subst (λ b. length b ≡ 33) (ok_injective e2) (c.length-point_to_bytes _)

  scalars-AllWidth :
      (cred : MasterCredential) (crs : Crs) → AllWidth 32 (all_nullifier_scalars cred crs)
  unfolding all_nullifier_scalars derive_all_nullifiers derive_nullifier
  scalars-AllWidth cred crs =
      AllWidth-map 32 (derive_nullifier cred.sk) (λ name. c.length-hkdf _ _ _) (names crs)

  name_scalar-length : (cred : MasterCredential) → length (to_scalar_bytes cred.friendly_name) ≡ 32
  unfolding to_scalar_bytes
  name_scalar-length cred = c.length-sha256 _

  pub create_payment_registration-IsRegistration :
      (dim : ℕ) (b : Beneficiary) (crs : Crs) (l : ℕ) (nonces : Nonces) (id : Bytes)
      (reg : PaymentIdentityRegistration)
      → b.set_id ≡ some id
      → (create_payment_registration dim b crs l nonces).1 ≡ ok reg
      → IsRegistration dim id l b.credential.friendly_name.text reg
  unfolding create_payment_registration build_registration derive_payment_request_pseudonym
  create_payment_registration-IsRegistration dim b crs l nonces id reg at e =
      let (made, (built, (_, same))) =
        on_ok_inverts b (build_registration dim b crs l nonces) _ reg e in
      let (set, (_, e1)) = bind_inverts (ok_or b.anonymity_set no_anonymity_set) _ built in
      let (j, (_, e2)) = bind_inverts (ok_or b.index no_index) _ e1 in
      let (id', (is_id, e3)) = bind_inverts (ok_or b.set_id no_set_id) _ e2 in
      let (_, e4) = guard_inverts (leb 1 l && leb l (num_merchants crs)) _ _ e3 in
      let (m, (_, e5)) = bind_inverts (expect (get_elem? crs.merchants (l - 1))) _ e4 in
      let (nul, (is_nul, e6)) = bind_inverts (public_nullifier b.credential crs l) _ e5 in
      let (proof, (proved, e7)) = bind_inverts (prove_result _) _ e6 in
      let same_id : id' ≡ id = some_injective (sym (ok_or_inverts _ _ is_id) ∙ at) in
      subst (IsRegistration dim id l b.credential.friendly_name.text) (ok_injective e7 ∙ same)
        (record {
          pseudonym_length = c.length-point_to_bytes _;
          nullifier_length = public_nullifier-length b.credential crs l nul is_nul;
          for_set = same_id;
          for_service = refl;
          with_name = refl;
          proof_sized =
              prove-IsSized dim crs set j l id' b.credential.k
                (all_nullifier_scalars b.credential crs) _ nul
                (to_scalar_bytes b.credential.friendly_name) nonces proof
                (scalars-AllWidth b.credential crs) (name_scalar-length b.credential)
                (prove_result_inverts _ proved);
        })
    where
      some_injective : {u v : Bytes} → some u ≡ some v → u ≡ v
      some_injective h = cc
