-- ===== src/Credential.antt =====
-- core/credential.rs: the master credential (Φ, sk, r, k), its creation and what it derives.
pub mod Phi
use veiled.Prelude.{
  ℕ, ◌-◌, leb, ◌&&◌, List, get_elem?, Bytes, codes, Outcome, ok, ◌>>=◌, ◌>>◌, assert, expect,
  unwrap,
}
use veiled.Crypto.{Crypto}
use veiled.Types.{MasterSecret, ChildRandomness, BlindingKey, Commitment, Nullifier}
use veiled.Types.Name.{Name}
use veiled.Types.FriendlyName.{FriendlyName, to_scalar_bytes}
use veiled.Nullifier.{derive_nullifier, derive_all_nullifiers, derive_public_nullifier}
use veiled.Crs.{Crs, names, num_merchants, commit_master_identity}

pub record MasterCredential : Type 0 where
  pub phi : Commitment
  pub sk : MasterSecret
  pub r : ChildRandomness
  pub k : BlindingKey
  pub friendly_name : FriendlyName

module _ ⦃c : Crypto⦄ where
  -- It panics when the CRS has another number of generators than merchants.
  unfoldable pub create {κ} :
      {E : Type κ}
      → Crs
      → MasterSecret
      → ChildRandomness
      → BlindingKey
      → FriendlyName
      → Outcome E MasterCredential
  create crs sk r k friendly_name = do
    let nullifiers = derive_all_nullifiers sk (names crs)
    let name_scalar = to_scalar_bytes friendly_name
    phi ← unwrap (commit_master_identity crs nullifiers k name_scalar)
    ok (record { phi = phi; sk = sk; r = r; k = k; friendly_name = friendly_name })

  unfoldable pub nullifier_scalar {κ} :
      {E : Type κ} → MasterCredential → Crs → ℕ → Outcome E Nullifier
  nullifier_scalar cred crs l = do
    assert (leb 1 l && leb l (num_merchants crs))
    merchant ← expect (get_elem? crs.merchants (l - 1))
    ok (derive_nullifier cred.sk merchant.name)

  unfoldable pub all_nullifier_scalars : MasterCredential → Crs → List Nullifier
  all_nullifier_scalars cred crs = derive_all_nullifiers cred.sk (names crs)

  unfoldable pub public_nullifier {κ} : {E : Type κ} → MasterCredential → Crs → ℕ → Outcome E Bytes
  public_nullifier cred crs l = do
    assert (leb 1 l && leb l (num_merchants crs))
    merchant ← expect (get_elem? crs.merchants (l - 1))
    ok (derive_public_nullifier cred.sk merchant.name crs.g)

  unfoldable pub derive_child_randomness : Bytes → Name → ChildRandomness
  derive_child_randomness real_randomness name =
      let name_hash = c.sha256 name.text in
      c.hkdf name_hash real_randomness (codes "CRS-ASC-child-randomness")

  unfoldable pub create_with_name {κ} :
      {E : Type κ}
      → Crs
      → MasterSecret
      → Bytes
      → Name
      → BlindingKey
      → FriendlyName
      → Outcome E MasterCredential
  create_with_name crs sk real_randomness name k friendly_name =
      let r = derive_child_randomness real_randomness name in create crs sk r k friendly_name

  unfoldable pub recompute_phi {κ} : {E : Type κ} → MasterCredential → Crs → Outcome E Commitment
  recompute_phi cred crs = do
    let nullifiers = derive_all_nullifiers cred.sk (names crs)
    let name_scalar = to_scalar_bytes cred.friendly_name
    unwrap (commit_master_identity crs nullifiers cred.k name_scalar)
