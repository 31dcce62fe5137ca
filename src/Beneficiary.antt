-- ===== src/Beneficiary.antt =====
-- core/beneficiary.rs: the member of an anonymity set, from the creation of its credential to the
-- registration with a merchant.
pub mod Register
pub mod Sized
use veiled.Prelude.{
  ℕ, zero, suc, ◌-◌, Bool, leb, ◌&&◌, List, [], ◌∷◌, Option, none, some, map, length, get_elem?,
  Bytes, list_eq, nat_eq, ◌===◌, if◌then◌else◌, Outcome, ok, err, panic, ok_or, guard, expect,
  ◌>>=◌, ◌>>◌, on_ok,
}
use veiled.Prelude.Map
use veiled.Prelude.Map.{Map}
use veiled.Crypto.{Crypto}
use veiled.Types.{MasterSecret, ChildRandomness, BlindingKey, Commitment}
use veiled.Types.FriendlyName
use veiled.Types.FriendlyName.{to_scalar_bytes}
use veiled.Request.{derive_payment_request_pseudonym}
use veiled.Proof.{PaymentIdentityRegistration}
use veiled.Crs.{Crs, num_merchants}
use veiled.Credential.{MasterCredential, create, public_nullifier, all_nullifier_scalars}
use veiled.PaymentIdentity.Prove.{ProveError, Nonces, prove_payment_identity_registration}

pub record Beneficiary : Type 0 where
  pub credential : MasterCredential
  pub set_id : Option Bytes
  pub index : Option ℕ
  pub anonymity_set : Option (List Commitment)
  pub registrations : Map ℕ PaymentIdentityRegistration

pub data RegisterError : Type 0 where
  not_in_set : RegisterError

pub data RegistrationError : Type 0 where
  no_anonymity_set no_index no_set_id merchant_id_range : RegistrationError
  prove_error : ProveError → RegistrationError

-- `iter().position(|c| *c == phi)`
abbrev pub position_from : ℕ → List Commitment → Commitment → Option ℕ
position_from i [] phi = none
position_from i (x ∷ xs) phi =
    let rest = position_from (suc i) xs phi in if x === phi then some i else rest

-- `map_err` of the errors of the prover.
abbrev pub prove_result {ℓ} : {A : Type ℓ} → Outcome ProveError A → Outcome RegistrationError A
prove_result (ok a) = ok a
prove_result (err e) = err (prove_error e)
prove_result panic = panic

unfoldable pub register :
    Beneficiary → Bytes → List Commitment → Beneficiary × Outcome RegisterError (Unit {0})
register b set_id anonymity_set =
    on_ok b (ok_or (position_from 0 anonymity_set b.credential.phi) not_in_set) (λ index. (
      record b { set_id = some set_id; index = some index; anonymity_set = some anonymity_set },
      tt,
    ))

unfoldable pub set_size : Beneficiary → Option ℕ
set_size b = elim b.anonymity_set [ none ↦ none | some s ↦ some (length s) ]

module _ ⦃c : Crypto⦄ where
  -- The three secrets are what the random source gives.
  unfoldable pub new {κ} :
      {E : Type κ}
      → Crs
      → Bytes
      → MasterSecret
      → ChildRandomness
      → BlindingKey
      → Outcome E Beneficiary
  new crs friendly_name sk r k = do
    name ← FriendlyName.new friendly_name
    credential ← create crs sk r k name
    ok (record {
      credential = credential;
      set_id = none;
      index = none;
      anonymity_set = none;
      registrations = [];
    })

  -- The registration that `create_payment_registration` makes and stores.
  unfoldable pub build_registration :
      ℕ → Beneficiary → Crs → ℕ → Nonces → Outcome RegistrationError PaymentIdentityRegistration
  build_registration dim b crs merchant_id nonces = do
    anonymity_set ← ok_or b.anonymity_set no_anonymity_set
    index ← ok_or b.index no_index
    set_id ← ok_or b.set_id no_set_id
    guard (leb 1 merchant_id && leb merchant_id (num_merchants crs)) merchant_id_range
    merchant ← expect (get_elem? crs.merchants (merchant_id - 1))
    let pseudonym = derive_payment_request_pseudonym b.credential.r merchant.name crs.g
    pub_nul ← public_nullifier b.credential crs merchant_id
    let all_nullifiers = all_nullifier_scalars b.credential crs
    let name_scalar = to_scalar_bytes b.credential.friendly_name
    proof ← prove_result (
        prove_payment_identity_registration dim crs anonymity_set index merchant_id set_id
          b.credential.k all_nullifiers pseudonym pub_nul name_scalar nonces)
    ok (record {
      pseudonym = pseudonym;
      public_nullifier = pub_nul;
      set_id = set_id;
      service_index = merchant_id;
      friendly_name = b.credential.friendly_name.text;
      proof = proof;
    })

  unfoldable pub create_payment_registration :
      ℕ
      → Beneficiary
      → Crs
      → ℕ
      → Nonces
      → Beneficiary × Outcome RegistrationError PaymentIdentityRegistration
  create_payment_registration dim b crs merchant_id nonces =
      on_ok b (build_registration dim b crs merchant_id nonces) (λ registration. (
        record b { registrations = Map.insert b.registrations merchant_id registration },
        registration,
      ))
