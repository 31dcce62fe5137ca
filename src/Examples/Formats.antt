-- ===== src/Examples/Formats.antt =====
-- The formats at concrete values, and the other statements of core/ at the small instance.
use veiled.Prelude.{◌≡◌, refl, true, arith, [], ◌∷◌, ◌++◌, replicate, codes, ok, is_utf8}
use veiled.Crypto.Toy.{unit, two, toy}
use veiled.Proof.{PaymentIdentityRegistrationProof}
use veiled.Proof.Codec.{
  serialize_payment_identity_registration_proof, deserialize_payment_identity_registration_proof,
}
use veiled.Proof.RoundTrip.{IsSized, deserialize-serialize}
use veiled.Crs.{num_merchants, setup}
use veiled.Crs.Codec.{to_bytes, from_bytes}
use veiled.Crs.RoundTrip.{AllReadable, renumbered, from_bytes-to_bytes}
use veiled.Request.{
  create_payment_request, derive_payment_request_pseudonym, verify_payment_request,
}
use veiled.Request.Complete.{verify-create_payment_request}
use veiled.Credential.{MasterCredential, create, recompute_phi}
use veiled.Credential.Phi.{recompute_phi-create}
use veiled.PaymentIdentity.Prove.{ProveError}
use veiled.Examples.Data.{crs, two_merchants}

abbrev sample : PaymentIdentityRegistrationProof
sample = record {
  a = replicate 33 1;
  b = replicate 33 2;
  c = replicate 33 3;
  d = replicate 33 4;
  e_poly = replicate 33 5 ∷ [];
  f = replicate 32 6 ∷ [];
  z_a = replicate 32 7;
  z_c = replicate 32 8;
  z_responses = replicate 32 9 ∷ replicate 32 10 ∷ [];
  schnorr_r = replicate 33 11;
  schnorr_s = replicate 32 12;
  nullifier_scalar = replicate 32 13;
  name_scalar = replicate 32 14;
}

sample-IsSized : IsSized 1 sample
sample-IsSized = record {
  a_length = refl;
  b_length = refl;
  c_length = refl;
  d_length = refl;
  e_count = refl;
  e_widths = (refl, tt);
  f_count = refl;
  f_widths = (refl, tt);
  z_a_length = refl;
  z_c_length = refl;
  schnorr_r_length = refl;
  schnorr_s_length = refl;
  nullifier_length = refl;
  name_length = refl;
  z_widths = (refl, (refl, tt));
}

deserialize-serialize_example :
    deserialize_payment_identity_registration_proof 1
      (serialize_payment_identity_registration_proof sample)
    ≡ ok sample
deserialize-serialize_example = deserialize-serialize 1 sample sample-IsSized

pub both_readable : AllReadable two_merchants
unfolding is_utf8
both_readable = (
  record {
    name_short = omega arith;
    name_utf8 = refl;
    generator_length = refl;
    origin_short = omega arith;
    origin_utf8 = refl;
  },
  (
    record {
      name_short = omega arith;
      name_utf8 = refl;
      generator_length = refl;
      origin_short = omega arith;
      origin_utf8 = refl;
    },
    tt,
  ),
)

from_bytes-to_bytes_example :
    from_bytes (to_bytes crs ++ 9 ∷ []) ≡ ok (record crs { merchants = renumbered 1 crs.merchants })
unfolding setup
from_bytes-to_bytes_example =
    from_bytes-to_bytes crs (9 ∷ []) (omega arith) (omega arith) (omega arith) refl both_readable

verify-create_payment_request_example :
    ((create_payment_request (2 ∷ []) (record { text = codes "shop" }) two 700 unit).pseudonym
      ≡ derive_payment_request_pseudonym (2 ∷ []) (record { text = codes "shop" }) two)
    × (verify_payment_request two
          (create_payment_request (2 ∷ []) (record { text = codes "shop" }) two 700 unit).pseudonym
          (create_payment_request (2 ∷ []) (record { text = codes "shop" }) two 700 unit).proof
        ≡ true)
verify-create_payment_request_example =
    verify-create_payment_request (2 ∷ []) (record { text = codes "shop" }) two 700 unit

recompute_phi-create_example :
    (cred : MasterCredential) × ((create {E = ProveError} crs
          (1 ∷ [])
          (2 ∷ [])
          (3 ∷ [])
          (record { text = codes "alice" })
        ≡ ok cred)
      × (recompute_phi {E = ProveError} cred crs ≡ ok cred.phi))
unfolding setup num_merchants
recompute_phi-create_example =
    recompute_phi-create {E = ProveError} crs (1 ∷ []) (2 ∷ []) (3 ∷ [])
      (record { text = codes "alice" }) refl
