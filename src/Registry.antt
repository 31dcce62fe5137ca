-- ===== src/Registry.antt =====
-- core/registry.rs: the identity registry, which collects merchants and commitments, sets up the CRS
-- and anchors the set in a Taproot output.
pub mod Merkle
pub mod Lifecycle
pub mod Anchor
use veiled.Prelude.{
  ℕ, ◌+◌, ◌-◌, ◌*◌, List, [], ◌∷◌, ◌++◌, length, map, leb, not, Bytes, replicate, Outcome, ok,
  ok_or, err, panic, ◌>>=◌, ◌==◌, ◌%◌, ◌^◌, if◌then◌else◌,
}
use veiled.Crypto.{Crypto}
use veiled.Bitcoin.{Bitcoin, OutPoint, Transaction}
use veiled.Types.{Commitment}
use veiled.Merchant.{Merchant}
use veiled.Crs.{Crs, setup as crs_setup}
use veiled.Registry.Merkle.{merkle_root}

pub record TaprootCommitment : Type 0 where
  pub tx : Transaction
  pub merkle_root : Bytes
  pub internal_key : Bytes
  pub output_key : Bytes

pub data RegistryError : Type 0 where
  set_is_empty tweak_scalar_overflow tweak_addition_failed : RegistryError

module _ ⦃c : Crypto⦄ where
  pub record Registry : Type 0 where
    pub crs : Crs
    pub merchants : List Merchant
    pub set_size : ℕ
    pub anonymity_set : List Commitment
    pub set_id : Bytes
    pub keypair : Bytes
    pub amount : ℕ
    pub beneficiary_outputs : List OutPoint

  -- The secret key is what the random source gives.
  unfoldable pub new : ℕ → ℕ → Bytes → Registry
  new set_size amount secret_key = record {
    crs = crs_setup [] set_size;
    merchants = [];
    set_size = set_size;
    anonymity_set = [];
    set_id = replicate 32 0;
    keypair = secret_key;
    amount = amount;
    beneficiary_outputs = [];
  }

  unfoldable pub add_merchant : Registry → Merchant → Registry × ℕ
  add_merchant reg merchant =
      let id = length reg.merchants + 1 in
      (record reg { merchants = reg.merchants ++ record merchant { merchant_id = id } ∷ [] }, id)

  unfoldable pub setup : Registry → Registry
  setup reg = record reg { crs = crs_setup reg.merchants reg.set_size }

  unfoldable pub add_beneficiary : Registry → Commitment → OutPoint → Registry × ℕ
  add_beneficiary reg phi output =
      let set = reg.anonymity_set ++ phi ∷ [] in
      (
        record reg {
          anonymity_set = set;
          beneficiary_outputs = reg.beneficiary_outputs ++ output ∷ [];
        },
        length set - 1,
      )

  unfoldable pub beneficiary_count : Registry → ℕ
  beneficiary_count reg = length reg.anonymity_set

  -- Steps 3 and 4: the tweaked key and the transaction. Amounts are u64.
  unfoldable pub anchor :
      ⦃b : Bitcoin⦄ → Registry → Bytes → OutPoint → Outcome RegistryError TaprootCommitment
  anchor ⦃b⦄ reg root funding_outpoint = do
    let internal_key = b.x_only_public_key reg.keypair
    tweak ← ok_or (b.scalar_from_be_bytes (c.sha256 (internal_key ++ root))) tweak_scalar_overflow
    output_key ← ok_or (b.add_tweak internal_key tweak) tweak_addition_failed
    let total_value = reg.amount * length reg.anonymity_set % 2 ^ 64
    ok (record {
      tx = record {
        version = 2;
        lock_time = 0;
        input = record { previous_output = funding_outpoint } ∷ [];
        output = record { value = total_value; script_pubkey = b.new_p2tr_tweaked output_key } ∷ [];
      };
      merkle_root = root;
      internal_key = internal_key;
      output_key = output_key;
    })

  -- The set id is set once the root is computed, before the steps that can fail.
  unfoldable pub create_anonymity_set :
      ⦃b : Bitcoin⦄ → Registry → OutPoint → Registry × Outcome RegistryError TaprootCommitment
  create_anonymity_set reg funding_outpoint =
      if length reg.anonymity_set == 0
      then (reg, err set_is_empty)
      else elim (merkle_root {E = RegistryError} reg.anonymity_set) [
        | ok root ↦ (record reg { set_id = root }, anchor reg root funding_outpoint)
        | err e ↦ (reg, err e)
        | panic ↦ (reg, panic)
      ]
