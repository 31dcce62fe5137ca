-- ===== src/Nullifier.antt =====
-- core/nullifier.rs: the nullifiers of a master secret, one for each merchant's name.
use veiled.Prelude.{
  ℕ, ◌≡◌, sym, ap, ◌<◌, List, [], map, Bytes, codes, length, length-map, get_or, get_or-map,
}
use veiled.Crypto.{Crypto, Point, ◌·◌}
use veiled.Types.{MasterSecret, Nullifier}
use veiled.Types.Name.{Name}

module _ ⦃c : Crypto⦄ where
  unfoldable pub derive_nullifier : MasterSecret → Name → Nullifier
  derive_nullifier master_secret name = c.hkdf name.text master_secret (codes "CRS-ASC-nullifier")

  unfoldable pub derive_all_nullifiers : MasterSecret → List Name → List Nullifier
  derive_all_nullifiers master_secret names = map (derive_nullifier master_secret) names

  -- nul_l = s_l·g
  unfoldable pub derive_public_nullifier : MasterSecret → Name → Point → Bytes
  derive_public_nullifier master_secret name g =
      let nul = derive_nullifier master_secret name in c.point_to_bytes (g · c.bytes_to_scalar nul)

  unfoldable pub derive_all_public_nullifiers : MasterSecret → List Name → Point → List Bytes
  derive_all_public_nullifiers master_secret names g =
      map (λ name. derive_public_nullifier master_secret name g) names

  pub length-derive_all_nullifiers :
      (sk : MasterSecret) (names : List Name)
      → length (derive_all_nullifiers sk names) ≡ length names
  unfolding derive_all_nullifiers
  length-derive_all_nullifiers sk names = length-map (derive_nullifier sk) names

  -- The public nullifier of the name at i is s·g for the scalar at i.
  pub derive_all_nullifiers-public :
      (sk : MasterSecret) (names : List Name) (i : ℕ) (name : Name) (g : Point)
      → i < length names
      → derive_public_nullifier sk (get_or names i name) g
        ≡ c.point_to_bytes (g · c.bytes_to_scalar (get_or (derive_all_nullifiers sk names) i []))
  unfolding derive_public_nullifier derive_all_nullifiers
  derive_all_nullifiers-public sk names i name g lt =
      ap (λ t. c.point_to_bytes (g · c.bytes_to_scalar t))
        (sym (get_or-map (derive_nullifier sk) names i name [] lt))
