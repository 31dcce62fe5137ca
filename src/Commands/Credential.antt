-- ===== src/Commands/Credential.antt =====
-- A credential through bin/veiled_core.rs: created by one command, placed in a set by another.
use veiled.Prelude.{
  unwrap_inverts, ℕ, ◌≡◌, ◌≤◌, ap, ◌∙◌, length, List, map, some, Bytes, AllWidth, ok, ok_or, unwrap,
  bind-ok, bind_inverts, ok_injective, guard_inverts, ◌==◌, subst,
}
use veiled.Crypto.{Crypto}
use veiled.Types.{max_len, Commitment, MasterSecret, ChildRandomness, BlindingKey}
use veiled.Types.FriendlyName
use veiled.Types.FriendlyName.{FriendlyName}
use veiled.Crs.{Crs, commit_master_identity}
use veiled.Credential.{MasterCredential, create}
use veiled.Beneficiary
use veiled.Beneficiary.{Beneficiary, position_from}
use veiled.Hex.{Hex}
use veiled.Commands.Json.{
  CoreError, CredentialJson, CreateCredentialParams, credential_created, registered_locally,
  not_in_set,
}
use veiled.Commands.Handlers.{
  from_credential, read_crs, handle_create_credential, handle_register_locally,
}
use veiled.Commands.Hexes.{IsSized, collect-encode, to_credential-from_credential}

module _ ⦃c : Crypto⦄ where
  -- A created credential has the secrets and the name that it was created with, and a point as Φ.
  create-IsSized {κ} :
      {E : Type κ} (crs : Crs) (sk r k : Bytes) (name : FriendlyName) (cred : MasterCredential)
      → create {E = E} crs sk r k name ≡ ok cred
      → length sk ≡ 32
      → length r ≡ 32
      → length k ≡ 32
      → length name.text ≤ max_len
      → IsSized cred
  unfolding create commit_master_identity
  create-IsSized crs sk r k name cred e l1 l2 l3 l4 =
      let (phi, (committed, e1)) = bind_inverts (unwrap (commit_master_identity crs _ k _)) _ e in
      let (_, e2) = guard_inverts (_ == _) _ _ (unwrap_inverts _ committed) in
      subst IsSized (ok_injective e1) (record {
        phi_length = subst (λ b. length b ≡ 33) (ok_injective e2) (c.length-point_to_bytes _);
        sk_length = l1;
        r_length = l2;
        k_length = l3;
        name_short = l4;
      })

module _ ⦃c : Crypto⦄ ⦃x : Hex⦄ where
  -- A name within the cap and secrets of 32 bytes: the credential that create-credential answers is
  -- found by register-locally in every set of 33-byte points that holds its Φ, at the first position
  -- of Φ.
  pub create_credential-register_locally :
      (p : CreateCredentialParams) (sk : MasterSecret) (r : ChildRandomness) (k : BlindingKey)
      (crs : Crs) (cred : MasterCredential) (set : List Commitment) (i : ℕ)
      → read_crs p.crs_hex ≡ ok crs
      → length p.name ≤ max_len
      → length sk ≡ 32
      → length r ≡ 32
      → length k ≡ 32
      → create {E = CoreError} crs sk r k (record { text = p.name }) ≡ ok cred
      → AllWidth 33 set
      → position_from 0 set cred.phi ≡ some i
      → (j : CredentialJson) × ((handle_create_credential sk r k p ≡ ok (credential_created j))
          × (handle_register_locally (record { credential = j; commitments_hex = map x.encode set })
              ≡ ok (registered_locally i)))
  unfolding handle_create_credential handle_register_locally Beneficiary.new
  create_credential-register_locally p sk r k crs cred set i is_crs short l1 l2 l3 made width at = (
    from_credential cred,
    (
      bind-ok _ is_crs
          ∙ bind-ok _ (bind-ok _ (FriendlyName.new_short p.name short) ∙ bind-ok _ made),
      bind-ok _ (
            to_credential-from_credential cred
              (create-IsSized crs sk r k _ cred made l1 l2 l3 short))
          ∙ bind-ok _ (collect-encode set width)
          ∙ bind-ok _ (ap (λ o. ok_or o not_in_set) at),
    ),
  )
