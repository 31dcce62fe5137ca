-- ===== src/Crypto.antt =====
-- What the program uses of its cryptography crates: k256 (the scalar field and the group of
-- secp256k1 with their encodings, and hash to curve), sha2 and hkdf. The program does not implement
-- these, so they are an interface: the operations, with the algebraic laws and the encoding laws
-- that the crates document. Every part of the model takes it as an instance argument.
pub mod Laws
pub mod Loops
pub mod Toy
use veiled.Prelude.{ℕ, ◌≡◌, ◌↔◌, Bool, true, Option, some, Bytes, length}

pub record Crypto : Type 1 where
  -- k256::Scalar
  pub Scalar : Type 0
  pub zero : Scalar
  pub one : Scalar
  pub add : Scalar → Scalar → Scalar
  pub mul : Scalar → Scalar → Scalar
  pub neg : Scalar → Scalar
  pub add_assoc : (a b c : Scalar) → add (add a b) c ≡ add a (add b c)
  pub add_comm : (a b : Scalar) → add a b ≡ add b a
  pub zero-add : (a : Scalar) → add zero a ≡ a
  pub add-neg : (a : Scalar) → add a (neg a) ≡ zero
  pub mul_assoc : (a b c : Scalar) → mul (mul a b) c ≡ mul a (mul b c)
  pub mul_comm : (a b : Scalar) → mul a b ≡ mul b a
  pub one-mul : (a : Scalar) → mul one a ≡ a
  pub mul-add : (a b c : Scalar) → mul a (add b c) ≡ add (mul a b) (mul a c)
  -- k256::ProjectivePoint, compared through `to_affine`
  pub Point : Type 0
  pub identity : Point
  pub padd : Point → Point → Point
  pub pneg : Point → Point
  pub smul : Point → Scalar → Point
  pub point_eq : Point → Point → Bool
  pub padd_assoc : (p q r : Point) → padd (padd p q) r ≡ padd p (padd q r)
  pub padd_comm : (p q : Point) → padd p q ≡ padd q p
  pub identity-padd : (p : Point) → padd identity p ≡ p
  pub padd-pneg : (p : Point) → padd p (pneg p) ≡ identity
  pub smul-one : (p : Point) → smul p one ≡ p
  pub smul-mul : (p : Point) (a b : Scalar) → smul p (mul a b) ≡ smul (smul p a) b
  pub smul-add : (p : Point) (a b : Scalar) → smul p (add a b) ≡ padd (smul p a) (smul p b)
  pub smul-padd : (p q : Point) (a : Scalar) → smul (padd p q) a ≡ padd (smul p a) (smul q a)
  pub point_eq_iff : (p q : Point) → (point_eq p q ≡ true) ↔ (p ≡ q)
  -- `AffinePoint::to_bytes` and `from_bytes`: 33 bytes, SEC1 compressed
  pub point_to_bytes : Point → Bytes
  pub point_from_bytes : Bytes → Option Point
  pub point_from_bytes-point_to_bytes : (p : Point) → point_from_bytes (point_to_bytes p) ≡ some p
  pub length-point_to_bytes : (p : Point) → length (point_to_bytes p) ≡ 33
  -- `Scalar::reduce` on 32 big-endian bytes, and `Scalar::to_bytes`
  pub bytes_to_scalar : Bytes → Scalar
  pub scalar_to_bytes : Scalar → Bytes
  pub bytes_to_scalar-scalar_to_bytes : (a : Scalar) → bytes_to_scalar (scalar_to_bytes a) ≡ a
  pub length-scalar_to_bytes : (a : Scalar) → length (scalar_to_bytes a) ≡ 32
  -- `Secp256k1::hash_from_bytes::<ExpandMsgXmd<Sha256>>(&[tag], &[dst])`
  pub hash_to_curve : Bytes → Bytes → Point
  -- `Sha256::digest`, and `Hkdf::<Sha256>::new(Some(salt), ikm).expand(info)` to 32 bytes
  pub sha256 : Bytes → Bytes
  pub length-sha256 : (b : Bytes) → length (sha256 b) ≡ 32
  pub hkdf : Bytes → Bytes → Bytes → Bytes
  pub length-hkdf : (salt ikm info : Bytes) → length (hkdf salt ikm info) ≡ 32

module _ ⦃c : Crypto⦄ where
  abbrev pub Scalar : Type 0
  Scalar = c.Scalar

  abbrev pub Point : Type 0
  Point = c.Point

  infixl 65 ◌⊕◌ ◌⊖◌ ◌⊞◌ ◌⊟◌
  infixl 70 ◌⊗◌ ◌·◌
  abbrev pub ◌⊕◌ : Scalar → Scalar → Scalar
  a ⊕ b = c.add a b

  abbrev pub ◌⊖◌ : Scalar → Scalar → Scalar
  a ⊖ b = c.add a (c.neg b)

  abbrev pub ◌⊗◌ : Scalar → Scalar → Scalar
  a ⊗ b = c.mul a b

  abbrev pub ◌⊞◌ : Point → Point → Point
  p ⊞ q = c.padd p q

  abbrev pub ◌⊟◌ : Point → Point → Point
  p ⊟ q = c.padd p (c.pneg q)

  abbrev pub ◌·◌ : Point → Scalar → Point
  p · a = c.smul p a
