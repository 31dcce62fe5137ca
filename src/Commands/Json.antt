-- ===== src/Commands/Json.antt =====
-- The parameters and the responses of bin/veiled_core.rs, field by field. The crate serde_json
-- is an interface.
use veiled.Prelude.{ℕ, Bool, List, Option, Bytes}
use veiled.Proof.Codec.{DecodeError}
use veiled.Crs.Codec.{CrsError}
use veiled.Merchant.Receive.{ReceiveError}
use veiled.Beneficiary.{RegistrationError}
use veiled.Request.Address.{AddressError}

pub record CredentialJson : Type 0 where
  pub phi : Bytes
  pub sk : Bytes
  pub r : Bytes
  pub k : Bytes
  pub friendly_name : Bytes

pub record BuildCrsMerchant : Type 0 where
  pub name : Bytes
  pub origin : Bytes

pub record BuildCrsParams : Type 0 where
  pub merchants : List BuildCrsMerchant
  pub set_size : ℕ

pub record CreateCredentialParams : Type 0 where
  pub crs_hex : Bytes
  pub name : Bytes

pub record RegisterLocallyParams : Type 0 where
  pub credential : CredentialJson
  pub commitments_hex : List Bytes

pub record CreatePaymentIdParams : Type 0 where
  pub credential : CredentialJson
  pub crs_hex : Bytes
  pub commitments_hex : List Bytes
  pub index : ℕ
  pub set_id : ℕ
  pub merchant_id : ℕ

pub record ReceivePaymentIdParams : Type 0 where
  pub crs_hex : Bytes
  pub commitments_hex : List Bytes
  pub pseudonym_hex : Bytes
  pub nullifier_hex : Bytes
  pub set_id : ℕ
  pub service_index : ℕ
  pub friendly_name : Bytes
  pub proof_hex : Bytes
  pub merchant_name : Bytes
  pub merchant_origin : Bytes

pub record CreatePaymentRequestParams : Type 0 where
  pub credential_r_hex : Bytes
  pub merchant_name : Bytes
  pub crs_g_hex : Bytes
  pub amount : ℕ

pub record VerifyPaymentRequestParams : Type 0 where
  pub crs_g_hex : Bytes
  pub pseudonym_hex : Bytes
  pub proof_r_hex : Bytes
  pub proof_s_hex : Bytes

pub record PseudonymToAddressParams : Type 0 where
  pub pseudonym_hex : Bytes

pub record CreatePaymentIdResponse : Type 0 where
  pub pseudonym : Bytes
  pub nullifier : Bytes
  pub proof_hex : Bytes
  pub friendly_name : Bytes
  pub service_index : ℕ
  pub set_id : ℕ

pub record CreatePaymentRequestResponse : Type 0 where
  pub pseudonym : Bytes
  pub proof_r : Bytes
  pub proof_s : Bytes
  pub amount : ℕ

-- What the commands answer, each with the fields of its struct or object.
pub data Response : Type 0 where
  crs_built : (crs_hex : Bytes) → Response
  credential_created : CredentialJson → Response
  registered_locally : (index : ℕ) → Response
  payment_id_created : CreatePaymentIdResponse → Response
  payment_id_received : (pseudonym : Bytes) → Response
  payment_request_created : CreatePaymentRequestResponse → Response
  payment_request_verified : (valid : Bool) (address : Bytes) → Response
  address_of : (address : Bytes) → Response
  pong : Response

pub data CoreError : Type 0 where
  bad_params hex_decode expected_32_bytes expected_33_bytes not_in_set invalid_point : CoreError
  unknown_command : Bytes → CoreError
  crs_error : CrsError → CoreError
  registration_error : RegistrationError → CoreError
  decode_error : DecodeError → CoreError
  receive_error : ReceiveError → CoreError
  address_error : AddressError → CoreError

-- `ErrorResponse`: the error of a command, text that is no command, or a panic.
pub data Failure : Type 0 where
  failed : CoreError → Failure
  invalid_json internal_panic : Failure

-- The crate serde_json, with the derived code: what is read from a line and from the parameters of a
-- command, none when it does not have the shape of the struct, and what is printed.
pub record Serde : Type 1 where
  pub Value : Type 0
  pub command : Bytes → Option (Bytes × Value)
  pub build_crs : Value → Option BuildCrsParams
  pub create_credential : Value → Option CreateCredentialParams
  pub register_locally : Value → Option RegisterLocallyParams
  pub create_payment_id : Value → Option CreatePaymentIdParams
  pub receive_payment_id : Value → Option ReceivePaymentIdParams
  pub create_payment_request : Value → Option CreatePaymentRequestParams
  pub verify_payment_request : Value → Option VerifyPaymentRequestParams
  pub pseudonym_to_address : Value → Option PseudonymToAddressParams
  pub response : Response → Bytes
  pub failure : Failure → Bytes
