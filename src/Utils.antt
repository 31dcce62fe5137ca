-- ===== src/Utils.antt =====
-- core/utils.rs: the Pedersen commitment to a nullifier, the bit generators H_k and the challenges.
use veiled.Prelude.{ℕ, List, [], ◌∷◌, ◌++◌, Bytes, codes, decimal, to_be_bytes}
use veiled.Crypto.{Crypto, Scalar, Point, ◌⊞◌, ◌·◌}
use veiled.Types.{Nullifier, BlindingKey, Commitment}

-- `CRS_DST`
abbrev pub crs_dst : Bytes
crs_dst = codes "CRS-ASC-v1"

module _ ⦃c : Crypto⦄ where
  unfoldable pub h_generator : Point
  h_generator = c.hash_to_curve (codes "veiled-H") (codes "veiled-commitment-v1")

  -- C = r·G + v·H, for the standard generator G of the curve.
  unfoldable pub commit : Point → Nullifier → BlindingKey → Commitment
  commit g nullifier blinding =
      let v = c.bytes_to_scalar nullifier in
      let r = c.bytes_to_scalar blinding in c.point_to_bytes (g · r ⊞ h_generator · v)

  -- The generator H_k; `bit_generators` is the array of these.
  unfoldable pub bit_generator : ℕ → Point
  bit_generator k = c.hash_to_curve (codes "CRS-ASC-bit-generator-" ++ decimal k) crs_dst

  -- `for p in points { hasher.update(point_to_bytes(p)) }`
  unfoldable pub points_bytes : List Point → Bytes
  points_bytes [] = []
  points_bytes (p ∷ ps) = c.point_to_bytes p ++ points_bytes ps

  -- The challenge x of a registration: all that the statement and the first message hold.
  unfoldable pub fiat_shamir_challenge :
      Point
      → Bytes
      → Bytes
      → ℕ
      → Bytes
      → Bytes
      → List Point
      → (Point × Point × Point × Point)
      → List Point
      → Scalar
  fiat_shamir_challenge crs_g pseudonym public_nullifier service_index set_id name_scalar d_set abcd
        e_poly =
      let (a, b, cc', d) = abcd in
      c.bytes_to_scalar (
        c.sha256 (
          codes "CRS-ASC-service-registration-v1"
          ++ (c.point_to_bytes crs_g
              ++ (pseudonym
                  ++ (public_nullifier
                      ++ (to_be_bytes 8 service_index
                          ++ (set_id
                              ++ (name_scalar
                                  ++ (points_bytes d_set
                                      ++ (points_bytes (a ∷ b ∷ cc' ∷ d ∷ [])
                                          ++ points_bytes e_poly))))))))))

  -- The challenge of the proof that the public nullifier is s_l · g.
  unfoldable pub schnorr_challenge : Point → Bytes → Point → Scalar
  schnorr_challenge g public_nullifier r_point = c.bytes_to_scalar (
      c.sha256 (
        codes "CRS-ASC-schnorr-nullifier"
        ++ (c.point_to_bytes g ++ (public_nullifier ++ c.point_to_bytes r_point))))
