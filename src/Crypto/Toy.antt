-- ===== src/Crypto/Toy.antt =====
-- A small instance of the interface, over the field of three elements: it shows that the laws can
-- be met, and the examples run on it.
use veiled.Prelude.{
  ℕ, ◌+◌, ◌%◌, ◌≡◌, refl, ◌↔◌, Bool, true, false, Option, none, some, [], ◌∷◌, ◌++◌, arith, Bytes,
  get_or, replicate, ◌==◌, if◌then◌else◌,
}
use veiled.Crypto.{Crypto}

pub data Trit : Type 0 where
  nought unit two : Trit

abbrev pub plus : Trit → Trit → Trit
plus nought b = b
plus unit nought = unit
plus unit unit = two
plus unit two = nought
plus two nought = two
plus two unit = nought
plus two two = unit

abbrev pub times : Trit → Trit → Trit
times nought b = nought
times unit b = b
times two nought = nought
times two unit = two
times two two = unit

abbrev pub minus : Trit → Trit
minus nought = nought
minus unit = two
minus two = unit

abbrev pub same : Trit → Trit → Bool
same nought nought = true
same unit unit = true
same two two = true
same _ _ = false

-- The last byte tells the element, behind `n` zero bytes.
abbrev pub digit : Trit → ℕ
digit nought = 0
digit unit = 1
digit two = 2

abbrev pub of_digit : ℕ → Trit
of_digit n = if n % 3 == 0 then nought else if n % 3 == 1 then unit else two

abbrev pub total : ℕ → Bytes → ℕ
total acc [] = acc
total acc (b ∷ bs) = total (acc + b) bs

abbrev pub pad : ℕ → ℕ → Bytes
pad n d = replicate n 0 ++ d ∷ []

pub plus_assoc : (a b c : Trit) → plus (plus a b) c ≡ plus a (plus b c)
plus_assoc a b c = ground arith

pub plus_comm : (a b : Trit) → plus a b ≡ plus b a
plus_comm a b = ground arith

pub plus-minus : (a : Trit) → plus a (minus a) ≡ nought
plus-minus a = ground arith

pub times_assoc : (a b c : Trit) → times (times a b) c ≡ times a (times b c)
times_assoc a b c = ground arith

pub times_comm : (a b : Trit) → times a b ≡ times b a
times_comm a b = ground arith

pub times-unit : (a : Trit) → times a unit ≡ a
times-unit a = ground arith

pub times-plus : (a b c : Trit) → times a (plus b c) ≡ plus (times a b) (times a c)
times-plus a b c = ground arith

pub plus-times : (a b c : Trit) → times (plus a b) c ≡ plus (times a c) (times b c)
plus-times a b c = ground arith

pub times_assoc_right : (a b c : Trit) → times a (times b c) ≡ times (times a b) c
times_assoc_right a b c = ground arith

pub same_iff : (a b : Trit) → (same a b ≡ true) ↔ (a ≡ b)
same_iff a b = ground arith

-- A point's bytes begin with 0.
abbrev pub decode : Bytes → Option Trit
decode b = if get_or b 0 1 == 0 then some (of_digit (total 0 b)) else none

pub decode-pad : (a : Trit) → decode (pad 32 (digit a)) ≡ some a
decode-pad nought = refl
decode-pad unit = refl
decode-pad two = refl

pub of_digit-total_scalar : (a : Trit) → of_digit (total 0 (pad 31 (digit a))) ≡ a
of_digit-total_scalar nought = refl
of_digit-total_scalar unit = refl
of_digit-total_scalar two = refl

instance abbrev pub toy : Crypto
toy = record {
  Scalar = Trit;
  zero = nought;
  one = unit;
  add = plus;
  mul = times;
  neg = minus;
  add_assoc = plus_assoc;
  add_comm = plus_comm;
  zero-add = λ a. refl;
  add-neg = plus-minus;
  mul_assoc = times_assoc;
  mul_comm = times_comm;
  one-mul = λ a. refl;
  mul-add = times-plus;
  Point = Trit;
  identity = nought;
  padd = plus;
  pneg = minus;
  smul = times;
  point_eq = same;
  padd_assoc = plus_assoc;
  padd_comm = plus_comm;
  identity-padd = λ a. refl;
  padd-pneg = plus-minus;
  smul-one = times-unit;
  smul-mul = times_assoc_right;
  smul-add = times-plus;
  smul-padd = plus-times;
  point_eq_iff = same_iff;
  point_to_bytes = λ p. pad 32 (digit p);
  point_from_bytes = decode;
  point_from_bytes-point_to_bytes = decode-pad;
  length-point_to_bytes = λ p. refl;
  bytes_to_scalar = λ b. of_digit (total 0 b);
  scalar_to_bytes = λ a. pad 31 (digit a);
  bytes_to_scalar-scalar_to_bytes = of_digit-total_scalar;
  length-scalar_to_bytes = λ a. refl;
  hash_to_curve = λ tag dst. of_digit (total 1 tag);
  sha256 = λ b. pad 31 (total 0 b % 256);
  length-sha256 = λ b. refl;
  hkdf = λ salt ikm info. pad 31 (total 0 (salt ++ ikm ++ info) % 256);
  length-hkdf = λ salt ikm info. refl;
}
