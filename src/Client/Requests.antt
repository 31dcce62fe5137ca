-- ===== src/Client/Requests.antt =====
-- The functions of client.rs that send a request to the registry, over the answers of the registry.
use veiled.Prelude.{
  ℕ, suc, ◌==◌, nat_eq, length, replicate, List, [], ◌∷◌, Option, none, Bytes, Outcome, ok, ok_or,
  map_err, guard, ◌>>=◌, ◌>>◌,
}
use veiled.Crypto.{Crypto}
use veiled.Types.{Commitment}
use veiled.Merchant
use veiled.Crs.{Crs}
use veiled.Crs.Codec.{CrsError, from_bytes}
use veiled.Request.Address.{Addresses, AddressError, Network, pseudonym_to_address}
use veiled.Service.Handlers.{GetAnonymitySetResponse, MerchantEntry}
use veiled.Client.{MerchantState}

pub record MerchantRequest : Type 0 where
  pub name : Bytes
  pub origin : Bytes
  pub email : Bytes
  pub phone : Bytes
  pub funding_txid : Bytes
  pub funding_vout : ℕ

pub record BeneficiaryRequest : Type 0 where
  pub phi : Bytes
  pub name : Bytes
  pub email : Bytes
  pub phone : Bytes
  pub funding_txid : Bytes
  pub funding_vout : ℕ

-- The generated stub: the answer to each request, none for a status. A subscription has a stream,
-- whose next message fails, is none at its end, or is there.
pub record RegClient : Type 0 where
  pub get_fees : Option (ℕ × ℕ)
  pub get_registry_address : Bytes → Option (Bytes × Bytes)
  pub register_merchant : MerchantRequest → Option ℕ
  pub get_merchants : Option (List MerchantEntry)
  pub register_beneficiary : BeneficiaryRequest → Option ℕ
  pub finalize_set : Bytes → Option Bytes
  pub get_crs : Bytes → Option Bytes
  pub subscribe_set_finalization : Bytes → Option (Option (Option GetAnonymitySetResponse))

-- The status of a failed call: the registry's, or one of the client. The status of data loss names the
-- index of the commitment.
pub data ClientStatus : Type 0 where
  refused unavailable : ClientStatus
  internal : CrsError → ClientStatus
  data_loss : ℕ → ClientStatus

unfoldable payment_address : ⦃a : Addresses⦄ → Bytes → Network → Outcome AddressError Bytes
payment_address pseudonym network = pseudonym_to_address pseudonym network

unfoldable get_fees : RegClient → Outcome ClientStatus (ℕ × ℕ)
get_fees client = ok_or client.get_fees refused

unfoldable get_registry_address : RegClient → Bytes → Outcome ClientStatus (Bytes × Bytes)
get_registry_address client set_id = ok_or (client.get_registry_address set_id) refused

unfoldable get_merchants : RegClient → Outcome ClientStatus (List MerchantEntry)
get_merchants client = ok_or client.get_merchants refused

unfoldable register_beneficiary : RegClient → BeneficiaryRequest → Outcome ClientStatus ℕ
register_beneficiary client request = ok_or (client.register_beneficiary request) refused

-- The set id of the request is a placeholder.
unfoldable pub finalize_set : RegClient → Outcome ClientStatus Bytes
finalize_set client = ok_or (client.finalize_set (replicate 32 0)) refused

unfoldable pub commitment_at : ℕ → Bytes → Outcome ClientStatus Commitment
commitment_at i bytes = do guard (length bytes == 33) (data_loss i); ok bytes

-- The commitments with their indices, until the first one of another length.
unfoldable pub commitments_from : ℕ → List Bytes → Outcome ClientStatus (List Commitment)
commitments_from i [] = ok []
commitments_from i (bytes ∷ rest) = do
  first ← commitment_at i bytes
  others ← commitments_from (suc i) rest
  ok (first ∷ others)

unfoldable pub wait_for_finalization : RegClient → Bytes → Outcome ClientStatus (List Commitment)
wait_for_finalization client set_id = do
  stream ← ok_or (client.subscribe_set_finalization set_id) refused
  message ← ok_or stream refused
  anon_res ← ok_or message unavailable
  commitments_from 0 anon_res.commitments

module _ ⦃c : Crypto⦄ where
  unfoldable pub register_merchant :
      RegClient → MerchantRequest → Outcome ClientStatus MerchantState
  register_merchant client request = do
    merchant_id ← ok_or (client.register_merchant request) refused
    merchant ← Merchant.new request.name request.origin
    ok (record {
      merchant = record merchant { merchant_id = merchant_id };
      crs = none;
      anonymity_set = none;
    })

  unfoldable pub get_crs : RegClient → Bytes → Outcome ClientStatus Crs
  get_crs client set_id = do
    crs_bytes ← ok_or (client.get_crs set_id) refused
    map_err internal (from_bytes crs_bytes)
