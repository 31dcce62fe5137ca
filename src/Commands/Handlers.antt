-- ===== src/Commands/Handlers.antt =====
-- The handlers of bin/veiled_core.rs, from the parameters to the response. The random values that a
-- handler draws are its arguments; what it logs is left out, but for the slices that can panic.
use veiled.Prelude.{
  ℕ, ◌++◌, [], length, take, replicate, some, min, Bytes, list_eq, nat_eq, ◌==◌, to_le_bytes,
  from_le_bytes, is_char_boundary, Outcome, ok, ok_or, guard, assert, map_err, collect, ◌>>=◌, ◌>>◌,
}
use veiled.Crypto.{Crypto, Scalar}
use veiled.Types.{MasterSecret, ChildRandomness, BlindingKey}
use veiled.Types.Name
use veiled.Types.FriendlyName
use veiled.Merchant
use veiled.Merchant.{Merchant}
use veiled.Merchant.Receive.{receive_payment_registration}
use veiled.Crs.{Crs, setup}
use veiled.Crs.Codec.{to_bytes, from_bytes}
use veiled.Credential.{MasterCredential}
use veiled.Request.{create_payment_request, verify_payment_request}
use veiled.Request.Address.{Addresses, regtest, pseudonym_to_address}
use veiled.Proof.{PaymentIdentityRegistration}
use veiled.Proof.Codec.{
  serialize_payment_identity_registration_proof, deserialize_payment_identity_registration_proof,
}
use veiled.PaymentIdentity.Prove.{Nonces}
use veiled.Beneficiary
use veiled.Beneficiary.{Beneficiary, position_from, create_payment_registration}
use veiled.Hex.{Hex}
use veiled.Commands.Json.{
  CredentialJson, BuildCrsMerchant, BuildCrsParams, CreateCredentialParams, RegisterLocallyParams,
  CreatePaymentIdParams, ReceivePaymentIdParams, CreatePaymentRequestParams,
  VerifyPaymentRequestParams, PseudonymToAddressParams, Response, crs_built, credential_created,
  registered_locally, payment_id_created, payment_id_received, payment_request_created,
  payment_request_verified, address_of, CoreError, hex_decode, expected_32_bytes, expected_33_bytes,
  not_in_set, invalid_point, crs_error, registration_error, decode_error, receive_error,
  address_error,
}

module _ ⦃x : Hex⦄ where
  unfoldable pub from_credential : MasterCredential → CredentialJson
  from_credential c = record {
    phi = x.encode c.phi;
    sk = x.encode c.sk;
    r = x.encode c.r;
    k = x.encode c.k;
    friendly_name = c.friendly_name.text;
  }

  unfoldable pub hex_to_32 : Bytes → Outcome CoreError Bytes
  hex_to_32 h = do
    bytes ← ok_or (x.decode h) hex_decode
    guard (length bytes == 32) expected_32_bytes
    ok bytes

  unfoldable pub hex_to_33 : Bytes → Outcome CoreError Bytes
  hex_to_33 h = do
    bytes ← ok_or (x.decode h) hex_decode
    guard (length bytes == 33) expected_33_bytes
    ok bytes

  unfoldable pub to_credential : CredentialJson → Outcome CoreError MasterCredential
  to_credential j = do
    phi ← hex_to_33 j.phi
    sk ← hex_to_32 j.sk
    r ← hex_to_32 j.r
    k ← hex_to_32 j.k
    friendly_name ← FriendlyName.new j.friendly_name
    ok (record { phi = phi; sk = sk; r = r; k = k; friendly_name = friendly_name })

  unfoldable pub handle_register_locally : RegisterLocallyParams → Outcome CoreError Response
  handle_register_locally p = do
    credential ← to_credential p.credential
    commitments ← collect hex_to_33 p.commitments_hex
    index ← ok_or (position_from 0 commitments credential.phi) not_in_set
    ok (registered_locally index)

-- `bytes[..8].copy_from_slice(&set_id.to_le_bytes())` into 32 zeros
unfoldable pub set_id_bytes : ℕ → Bytes
set_id_bytes set_id = to_le_bytes 8 set_id ++ replicate 24 0

module _ ⦃c : Crypto⦄ ⦃x : Hex⦄ where
  unfoldable pub handle_build_crs : BuildCrsParams → Outcome CoreError Response
  handle_build_crs p = do
    merchants ← collect (λ (m : BuildCrsMerchant). Merchant.new m.name m.origin) p.merchants
    ok (crs_built (x.encode (to_bytes (setup merchants p.set_size))))

  -- The hex text of a CRS.
  unfoldable pub read_crs : Bytes → Outcome CoreError Crs
  read_crs crs_hex = do
    crs_bytes ← ok_or (x.decode crs_hex) hex_decode
    map_err crs_error (from_bytes crs_bytes)

  unfoldable pub handle_create_credential :
      MasterSecret
      → ChildRandomness
      → BlindingKey
      → CreateCredentialParams
      → Outcome CoreError Response
  handle_create_credential sk r k p = do
    crs ← read_crs p.crs_hex
    ben ← Beneficiary.new crs p.name sk r k
    ok (credential_created (from_credential ben.credential))

  unfoldable pub handle_create_payment_id :
      ℕ → Nonces → CreatePaymentIdParams → Outcome CoreError Response
  handle_create_payment_id dim nonces p = do
    credential ← to_credential p.credential
    crs ← read_crs p.crs_hex
    commitments ← collect hex_to_33 p.commitments_hex
    let ben : Beneficiary = record {
      credential = credential;
      set_id = some (set_id_bytes p.set_id);
      index = some p.index;
      anonymity_set = some commitments;
      registrations = [];
    }
    reg ←
        map_err registration_error (create_payment_registration dim ben crs p.merchant_id nonces).1
    ok (
        payment_id_created (record {
          pseudonym = x.encode reg.pseudonym;
          nullifier = x.encode reg.public_nullifier;
          proof_hex = x.encode (serialize_payment_identity_registration_proof reg.proof);
          friendly_name = reg.friendly_name;
          service_index = reg.service_index;
          set_id = from_le_bytes (take 8 reg.set_id);
        }))

  unfoldable pub handle_receive_payment_id : ℕ → ReceivePaymentIdParams → Outcome CoreError Response
  handle_receive_payment_id dim p = do
    crs ← read_crs p.crs_hex
    commitments ← collect hex_to_33 p.commitments_hex
    proof_bytes ← ok_or (x.decode p.proof_hex) hex_decode
    proof ← map_err decode_error (deserialize_payment_identity_registration_proof dim proof_bytes)
    pseudonym ← hex_to_33 p.pseudonym_hex
    public_nullifier ← hex_to_33 p.nullifier_hex
    let registration : PaymentIdentityRegistration = record {
      pseudonym = pseudonym;
      public_nullifier = public_nullifier;
      set_id = set_id_bytes p.set_id;
      service_index = p.service_index;
      friendly_name = p.friendly_name;
      proof = proof;
    }
    merchant ← Merchant.new p.merchant_name p.merchant_origin
    accepted ←
        map_err receive_error
          (receive_payment_registration dim merchant crs commitments registration).1
    ok (payment_id_received (x.encode accepted))

  unfoldable pub handle_create_payment_request :
      Scalar → CreatePaymentRequestParams → Outcome CoreError Response
  handle_create_payment_request t p = do
    r ← hex_to_32 p.credential_r_hex
    name ← Name.new p.merchant_name
    g_bytes ← hex_to_33 p.crs_g_hex
    g ← ok_or (c.point_from_bytes g_bytes) invalid_point
    let req = create_payment_request r name g p.amount t
    ok (
        payment_request_created (record {
          pseudonym = x.encode req.pseudonym;
          proof_r = x.encode req.proof.r;
          proof_s = x.encode req.proof.s;
          amount = req.amount;
        }))

-- `&s[..16.min(s.len())]`
unfoldable pub log_prefix : Bytes → Outcome CoreError (Unit {0})
log_prefix s = assert (is_char_boundary s (min 16 (length s)))

module _ ⦃x : Hex⦄ ⦃a : Addresses⦄ where
  unfoldable pub handle_verify_payment_request :
      ⦃c : Crypto⦄ → VerifyPaymentRequestParams → Outcome CoreError Response
  handle_verify_payment_request ⦃c⦄ p = do
    log_prefix p.pseudonym_hex
    g_bytes ← hex_to_33 p.crs_g_hex
    g ← ok_or (c.point_from_bytes g_bytes) invalid_point
    pseudonym ← hex_to_33 p.pseudonym_hex
    r ← hex_to_33 p.proof_r_hex
    s ← hex_to_32 p.proof_s_hex
    let valid = verify_payment_request g pseudonym (record { r = r; s = s })
    address ← map_err address_error (pseudonym_to_address pseudonym regtest)
    ok (payment_request_verified valid address)

  unfoldable pub handle_pseudonym_to_address : PseudonymToAddressParams → Outcome CoreError Response
  handle_pseudonym_to_address p = do
    log_prefix p.pseudonym_hex
    pseudonym ← hex_to_33 p.pseudonym_hex
    address ← map_err address_error (pseudonym_to_address pseudonym regtest)
    ok (address_of address)
