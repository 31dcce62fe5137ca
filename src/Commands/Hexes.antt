-- ===== src/Commands/Hexes.antt =====
-- The hex fields of bin/veiled_core.rs, written and read.
use veiled.Prelude.{
  ◌≤◌, ◌≡◌, refl, ap, ◌∙◌, arith, true, List, [], ◌∷◌, map, length, ◌==◌, Bytes, AllWidth, ok,
  ok_or, collect, bind-ok, guard_passes,
}
use veiled.Types.{max_len}
use veiled.Types.FriendlyName
use veiled.Types.FriendlyName.{FriendlyName}
use veiled.Credential.{MasterCredential}
use veiled.Hex.{Hex}
use veiled.Commands.Json.{hex_decode, expected_32_bytes, expected_33_bytes}
use veiled.Commands.Handlers.{hex_to_32, hex_to_33, from_credential, to_credential}

-- The sizes of the arrays in the Rust type of a credential, and the cap of its name.
pub record IsSized (cred : MasterCredential) : Type 0 where
  pub phi_length : length cred.phi ≡ 33
  pub sk_length : length cred.sk ≡ 32
  pub r_length : length cred.r ≡ 32
  pub k_length : length cred.k ≡ 32
  pub name_short : length cred.friendly_name.text ≤ max_len

module _ ⦃x : Hex⦄ where
  pub hex_to_32-encode : (b : Bytes) → length b ≡ 32 → hex_to_32 (x.encode b) ≡ ok b
  unfolding hex_to_32
  hex_to_32-encode b e =
      let t : (length b == 32) ≡ true = ground arith in
      bind-ok _ (ap (λ o. ok_or o hex_decode) (x.decode-encode b))
      ∙ guard_passes expected_32_bytes _ t

  pub hex_to_33-encode : (b : Bytes) → length b ≡ 33 → hex_to_33 (x.encode b) ≡ ok b
  unfolding hex_to_33
  hex_to_33-encode b e =
      let t : (length b == 33) ≡ true = ground arith in
      bind-ok _ (ap (λ o. ok_or o hex_decode) (x.decode-encode b))
      ∙ guard_passes expected_33_bytes _ t

  pub collect-encode :
      (xs : List Bytes) → AllWidth 33 xs → collect hex_to_33 (map x.encode xs) ≡ ok xs
  collect-encode [] h = refl
  collect-encode (b ∷ bs) (e, h) =
      bind-ok _ (hex_to_33-encode b e) ∙ bind-ok _ (collect-encode bs h)

  -- A credential of the sizes of its type is read back from its JSON form.
  pub to_credential-from_credential :
      (cred : MasterCredential) → IsSized cred → to_credential (from_credential cred) ≡ ok cred
  unfolding to_credential from_credential
  to_credential-from_credential cred h =
      bind-ok _ (hex_to_33-encode cred.phi h.phi_length)
      ∙ bind-ok _ (hex_to_32-encode cred.sk h.sk_length)
      ∙ bind-ok _ (hex_to_32-encode cred.r h.r_length)
      ∙ bind-ok _ (hex_to_32-encode cred.k h.k_length)
      ∙ bind-ok _ (FriendlyName.new_short cred.friendly_name.text h.name_short)
