-- ===== src/Examples/Commands.antt =====
-- Runs of bin/veiled_core.rs: hex that changes nothing, and every point with the same address.
use veiled.Prelude.{
  is_char_boundary, ◌≡◌, refl, arith, ◌++◌, List, [], ◌∷◌, some, Bytes, codes, replicate, map, ok,
  list_eq, nat_eq, decimal,
}
use veiled.Crypto.Toy.{toy, two, unit}
use veiled.Hex.{Hex}
use veiled.Types.{Commitment}
use veiled.Request.Address.{Addresses, regtest}
use veiled.Credential.{MasterCredential}
use veiled.Credential.Phi.{credential_of}
use veiled.Commands.Json.{
  CreatePaymentIdParams, CreatePaymentRequestParams, CreatePaymentIdResponse,
  CreatePaymentRequestResponse, payment_id_created, payment_id_received, payment_request_created,
  payment_request_verified, address_of,
}
use veiled.Commands.Handlers.{
  from_credential, handle_create_payment_id, handle_receive_payment_id,
  handle_create_payment_request, handle_verify_payment_request, handle_pseudonym_to_address,
}
use veiled.Commands.Hexes.{IsSized, to_credential-from_credential}
use veiled.Prelude.{ap, map_err, true}
use veiled.Commands.Json.{crs_error}
use veiled.Commands.Handlers.{read_crs, log_prefix, hex_to_32, hex_to_33}
use veiled.Commands.Registration.{forwarded, create_payment_id-receive}
use veiled.Commands.Payment.{presented, create_payment_request-verify}
use veiled.Crs.{setup, num_merchants, add_values, names, generator_tag}
use veiled.Crs.Codec.{to_bytes}
use veiled.Crs.RoundTrip.{from_bytes-to_bytes}
use veiled.Types.Name
use veiled.Types.FriendlyName.{to_scalar_bytes}
use veiled.Nullifier.{derive_all_nullifiers, derive_nullifier}
use veiled.Request.{derive_payment_request_pseudonym, derive_payment_request_secret_key}
use veiled.Credential.Phi.{create-ok}
use veiled.PaymentIdentity.Decoded.{AllPoints}
use veiled.Examples.Formats.{both_readable}
use veiled.Examples.Data.{crs, nonces}

instance abbrev pub plain : Hex
plain = record { encode = λ b. b; decode = λ b. some b; decode-encode = λ b. refl }

instance abbrev pub one_address : Addresses
one_address = record {
  x_only_from_slice = λ b. some (codes "key");
  p2tr = λ key network. codes "bcrt1" ++ key;
}

abbrev pub secret : Bytes
secret = replicate 31 0 ++ 1 ∷ []

abbrev pub carol : MasterCredential
carol = credential_of crs secret secret secret (record { text = codes "carol" })

carol-IsSized : IsSized carol
carol-IsSized = record {
  phi_length = refl;
  sk_length = refl;
  r_length = refl;
  k_length = refl;
  name_short = omega arith;
}

-- The hex text of the CRS.
abbrev crs_text : Bytes
crs_text = to_bytes crs ++ []

crs_text-read : read_crs crs_text ≡ ok crs
unfolding read_crs setup
crs_text-read =
    ap (map_err crs_error)
      (from_bytes-to_bytes crs [] (omega arith) (omega arith) (omega arith) refl both_readable)

abbrev two_of_carol : List Commitment
two_of_carol = carol.phi ∷ carol.phi ∷ []

carol_points : AllPoints two_of_carol
unfolding setup add_values derive_all_nullifiers derive_nullifier names to_scalar_bytes
    generator_tag decimal
carol_points = ((_, refl), ((_, refl), tt))

abbrev payment_id_params : CreatePaymentIdParams
payment_id_params = record {
  credential = from_credential carol;
  crs_hex = crs_text;
  commitments_hex = map (λ b. b) two_of_carol;
  index = 0;
  set_id = 42;
  merchant_id = 2;
}

create_payment_id-receive_example :
    (resp : CreatePaymentIdResponse) × ((handle_create_payment_id 1 nonces payment_id_params
        ≡ ok (payment_id_created resp))
      × (handle_receive_payment_id 1
            (forwarded payment_id_params resp (codes "cafe") (codes "cafe"))
          ≡ ok (payment_id_received resp.pseudonym)))
unfolding setup num_merchants add_values derive_all_nullifiers derive_nullifier names
    to_scalar_bytes generator_tag decimal hex_to_33
create_payment_id-receive_example =
    create_payment_id-receive 1 payment_id_params nonces (codes "cafe") (codes "cafe") carol crs
      two_of_carol (to_credential-from_credential carol carol-IsSized) crs_text-read refl
      (create-ok crs secret secret secret (record { text = codes "carol" }) refl) refl carol_points
      refl (omega arith) (omega arith) (omega arith) (omega arith)

abbrev request_params : CreatePaymentRequestParams
request_params = record {
  credential_r_hex = secret;
  merchant_name = codes "cafe";
  crs_g_hex = toy.point_to_bytes two;
  amount = 700;
}

create_payment_request-verify_example :
    (resp : CreatePaymentRequestResponse) × ((handle_create_payment_request unit request_params
        ≡ ok (payment_request_created resp))
      × ((resp.amount ≡ 700)
          × ((handle_verify_payment_request (presented (toy.point_to_bytes two) resp)
                ≡ ok (payment_request_verified true (one_address.p2tr (codes "key") regtest)))
              × (handle_pseudonym_to_address (record { pseudonym_hex = resp.pseudonym })
                  ≡ ok (address_of (one_address.p2tr (codes "key") regtest))))))
unfolding derive_payment_request_pseudonym derive_payment_request_secret_key log_prefix
    is_char_boundary hex_to_32 hex_to_33 Name.new Name.try_new
create_payment_request-verify_example =
    create_payment_request-verify request_params unit secret (record { text = codes "cafe" })
      (toy.point_to_bytes two) two (codes "key") refl refl refl refl refl refl
