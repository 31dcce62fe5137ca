-- ===== src/Crs.antt =====
-- core/crs.rs: the common reference string, its generators and the master identity commitment.
-- The byte format is in Crs/Codec.antt.
pub mod Codec
pub mod RoundTrip
pub mod Sized
use veiled.Prelude.{
  ℕ, zero, suc, ◌-◌, List, [], ◌∷◌, ◌++◌, Bytes, codes, decimal, length, map, get_elem?, leb, ◌==◌,
  ◌&&◌, tabulate_from, Outcome, ok, guard, assert, expect, ◌>>=◌, ◌>>◌,
}
use veiled.Crypto.{Crypto, Point, ◌⊞◌, ◌·◌}
use veiled.Types.{Nullifier, BlindingKey, Commitment}
use veiled.Types.Name.{Name}
use veiled.Merchant.{Merchant, crs_dst}

pub record Crs ⦃c : Crypto⦄ : Type 0 where
  pub security_param : ℕ
  pub g : Point
  pub h_name : Point
  pub generators : List Point
  pub merchants : List Merchant
  pub set_size : ℕ

-- The errors of `commit_master_identity`.
pub data CommitError : Type 0 where
  nullifier_count : CommitError

-- The tag of h_l.
unfoldable pub generator_tag : ℕ → Bytes
generator_tag l = codes "CRS-ASC-generator-" ++ decimal l

module _ ⦃c : Crypto⦄ where
  -- The loop draws h_1, …, h_L in turn.
  unfoldable pub setup : List Merchant → ℕ → Crs
  setup merchants set_size = record {
    security_param = 128;
    g = c.hash_to_curve (codes "CRS-ASC-generator-0") crs_dst;
    h_name = c.hash_to_curve (codes "CRS-ASC-generator-name") crs_dst;
    generators =
        tabulate_from 1 (length merchants) (λ l. c.hash_to_curve (generator_tag l) crs_dst);
    merchants = merchants;
    set_size = set_size;
  }

  unfoldable pub num_merchants : Crs → ℕ
  num_merchants crs = length crs.merchants

  -- h_l, from 1; it panics out of range.
  unfoldable pub h {κ} : {E : Type κ} → Crs → ℕ → Outcome E Point
  h crs l = do
    assert (leb 1 l && leb l (length crs.generators))
    expect (get_elem? crs.generators (l - 1))

  unfoldable pub names : Crs → List Name
  names crs = map (λ p. p.name) crs.merchants

  -- The loop `point += self.generators[i] * v` over the nullifiers, whose number is that of the
  -- generators.
  unfoldable pub add_values : Point → List Point → List Nullifier → Point
  add_values point (gen ∷ gens) (nul ∷ nuls) =
      add_values (point ⊞ gen · c.bytes_to_scalar nul) gens nuls
  add_values point _ _ = point

  -- Φ = k·g + s_1·h_1 + … + s_L·h_L + name_scalar·h_name
  unfoldable pub commit_master_identity :
      Crs → List Nullifier → BlindingKey → Bytes → Outcome CommitError Commitment
  commit_master_identity crs nullifiers blinding name_scalar = do
    guard (length nullifiers == length crs.generators) nullifier_count
    let start = crs.g · c.bytes_to_scalar blinding
    let point = add_values start crs.generators nullifiers
    ok (c.point_to_bytes (point ⊞ crs.h_name · c.bytes_to_scalar name_scalar))
