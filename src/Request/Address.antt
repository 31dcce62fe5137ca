-- ===== src/Request/Address.antt =====
-- `pseudonym_to_address` of core/request.rs: the Taproot address of a pseudonym. Public keys and
-- addresses are those of the crates secp256k1 and bitcoin.
use veiled.Prelude.{Bytes, Option, Outcome, ok_or, ok, ◌>>=◌}

pub data Network : Type 0 where
  bitcoin testnet signet regtest : Network

pub record Addresses : Type 0 where
  -- the x-only key of `PublicKey::from_slice`, none for bytes that are no point
  pub x_only_from_slice : Bytes → Option Bytes
  -- `Address::p2tr` without a script tree, as text
  pub p2tr : Bytes → Network → Bytes

pub data AddressError : Type 0 where
  invalid_pseudonym : AddressError

unfoldable pub pseudonym_to_address : ⦃a : Addresses⦄ → Bytes → Network → Outcome AddressError Bytes
pseudonym_to_address ⦃a⦄ pseudonym network = do
  xonly ← ok_or (a.x_only_from_slice pseudonym) invalid_pseudonym
  ok (a.p2tr xonly network)
