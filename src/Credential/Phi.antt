-- ===== src/Credential/Phi.antt =====
-- The commitment Φ of a credential of core/credential.rs.
use veiled.Prelude.{◌≡◌, sym, ap, ◌∙◌, length, length-map, ok, unwrap, bind-ok}
use veiled.Crypto.{Crypto}
use veiled.Types.{MasterSecret, ChildRandomness, BlindingKey}
use veiled.Types.FriendlyName.{FriendlyName, to_scalar_bytes}
use veiled.Nullifier.{derive_all_nullifiers, length-derive_all_nullifiers}
use veiled.Crs.{Crs, names, num_merchants}
use veiled.PaymentIdentity.Completeness.{commit_master_identity-ok, identity_point}
use veiled.Credential.{MasterCredential, create, recompute_phi}

module _ ⦃c : Crypto⦄ where
  pub length-names : (crs : Crs) → length (names crs) ≡ num_merchants crs
  unfolding names num_merchants
  length-names crs = length-map (λ p. p.name) crs.merchants

  -- The credential that `create` makes.
  abbrev pub credential_of :
      Crs → MasterSecret → ChildRandomness → BlindingKey → FriendlyName → MasterCredential
  credential_of crs sk r k friendly_name = record {
    phi = c.point_to_bytes (
        identity_point crs (derive_all_nullifiers sk (names crs)) k
          (to_scalar_bytes friendly_name));
    sk = sk;
    r = r;
    k = k;
    friendly_name = friendly_name;
  }

  pub create-ok {κ} :
      {E : Type κ} (crs : Crs) (sk : MasterSecret) (r : ChildRandomness) (k : BlindingKey)
      (friendly_name : FriendlyName)
      → length crs.generators ≡ num_merchants crs
      → create {E = E} crs sk r k friendly_name ≡ ok (credential_of crs sk r k friendly_name)
  unfolding create
  create-ok crs sk r k friendly_name e = bind-ok _ (
      ap unwrap (
        commit_master_identity-ok crs _ k (to_scalar_bytes friendly_name)
          (length-derive_all_nullifiers sk (names crs) ∙ length-names crs ∙ sym e)))

  -- Over a CRS with a generator for each merchant, creation succeeds, and the Φ of the credential is
  -- the one that the stored secrets (sk, k) and the friendly name give again.
  pub recompute_phi-create {κ} :
      {E : Type κ} (crs : Crs) (sk : MasterSecret) (r : ChildRandomness) (k : BlindingKey)
      (friendly_name : FriendlyName)
      → length crs.generators ≡ num_merchants crs
      → (cred : MasterCredential) × ((create {E = E} crs sk r k friendly_name ≡ ok cred)
          × (recompute_phi {E = E} cred crs ≡ ok cred.phi))
  unfolding recompute_phi
  recompute_phi-create crs sk r k friendly_name e = (
    credential_of crs sk r k friendly_name,
    (
      create-ok crs sk r k friendly_name e,
      ap unwrap (
          commit_master_identity-ok crs _ k (to_scalar_bytes friendly_name)
            (length-derive_all_nullifiers sk (names crs) ∙ length-names crs ∙ sym e)),
    ),
  )
