-- ===== src/Crs/Codec.antt =====
-- `Crs::to_bytes` and `Crs::from_bytes` of core/crs.rs. A reader takes the bytes that are left, for
-- `bytes[pos..]`, and returns what it read with the rest.
use veiled.Prelude.{
  ℕ, zero, suc, not, ltb, List, [], ◌∷◌, ◌++◌, length, take, drop, Bytes, to_be_bytes,
  from_be_bytes, is_utf8, Outcome, ok, err, panic, ok_or, guard, ◌>>=◌, ◌>>◌,
}
use veiled.Crypto.{Crypto, Point}
use veiled.Types.{TooLong}
use veiled.Types.Name
use veiled.Types.Name.{Name}
use veiled.Merchant.{Merchant}
use veiled.Utils.{points_bytes}
use veiled.Crs.{Crs}

pub data CrsError : Type 0 where
  short_header short_g invalid_g short_h_name invalid_h_name short_generators invalid_h : CrsError
  short_name_length short_name name_utf8 name_too_long short_credential_generator : CrsError
  short_origin_length short_origin origin_utf8 : CrsError

-- `len() as u16`, most significant byte first, then the text.
unfoldable pub text_bytes : Bytes → Bytes
text_bytes text = to_be_bytes 2 (length text) ++ text

unfoldable pub merchant_bytes : Merchant → Bytes
merchant_bytes m = text_bytes m.name.text ++ (m.credential_generator ++ text_bytes m.origin)

unfoldable pub merchants_bytes : List Merchant → Bytes
merchants_bytes [] = []
merchants_bytes (m ∷ ms) = merchant_bytes m ++ merchants_bytes ms

unfoldable pub to_bytes : ⦃c : Crypto⦄ → Crs → Bytes
to_bytes ⦃c⦄ crs =
    to_be_bytes 4 crs.security_param
    ++ (to_be_bytes 4 (length crs.generators)
        ++ (to_be_bytes 4 crs.set_size
            ++ (c.point_to_bytes crs.g
                ++ (c.point_to_bytes crs.h_name
                    ++ (points_bytes crs.generators ++ merchants_bytes crs.merchants)))))

-- `if bytes.len() < pos + n { return Err(e) }`, the slice, and `pos += n`
unfoldable pub read : ℕ → CrsError → Bytes → Outcome CrsError (Bytes × Bytes)
read n e bytes = do guard (not (ltb (length bytes) n)) e; ok (take n bytes, drop n bytes)

unfoldable pub read_point :
    ⦃c : Crypto⦄ → CrsError → CrsError → Bytes → Outcome CrsError (Point × Bytes)
read_point ⦃c⦄ short invalid bytes = do
  (encoded, rest) ← read 33 short bytes
  p ← ok_or (c.point_from_bytes encoded) invalid
  ok (p, rest)

unfoldable pub read_generators : ⦃c : Crypto⦄ → ℕ → Bytes → Outcome CrsError (List Point × Bytes)
read_generators zero bytes = ok ([], bytes)
read_generators (suc l) bytes = do
  (p, rest) ← read_point short_generators invalid_h bytes
  (ps, rest) ← read_generators l rest
  ok (p ∷ ps, rest)

-- A text after its length.
unfoldable pub read_text : CrsError → CrsError → CrsError → Bytes → Outcome CrsError (Bytes × Bytes)
read_text short_length short bad bytes = do
  (len, rest) ← read 2 short_length bytes
  (text, rest) ← read (from_be_bytes len) short rest
  guard (is_utf8 text) bad
  ok (text, rest)

-- `Name::try_new(…).map_err(…)`
abbrev pub read_name : Outcome TooLong Name → Outcome CrsError Name
read_name (ok n) = ok n
read_name (err e) = err name_too_long
read_name panic = panic

-- A merchant, which gets the number `id`.
unfoldable pub read_merchant : ℕ → Bytes → Outcome CrsError (Merchant × Bytes)
read_merchant id bytes = do
  (text, rest) ← read_text short_name_length short_name name_utf8 bytes
  name ← read_name (Name.try_new text)
  (credential_generator, rest) ← read 33 short_credential_generator rest
  (origin, rest) ← read_text short_origin_length short_origin origin_utf8 rest
  ok (
    record {
      name = name;
      credential_generator = credential_generator;
      origin = origin;
      merchant_id = id;
      registered_identities = [];
    },
    rest,
  )

unfoldable pub read_merchants : ℕ → ℕ → Bytes → Outcome CrsError (List Merchant × Bytes)
read_merchants zero id bytes = ok ([], bytes)
read_merchants (suc l) id bytes = do
  (m, rest) ← read_merchant id bytes
  (ms, rest) ← read_merchants l (suc id) rest
  ok (m ∷ ms, rest)

-- The bytes after the last merchant are not looked at.
unfoldable pub from_bytes : ⦃c : Crypto⦄ → Bytes → Outcome CrsError Crs
from_bytes bytes = do
  guard (not (ltb (length bytes) 12)) short_header
  let security_param = from_be_bytes (take 4 bytes)
  let l = from_be_bytes (take 4 (drop 4 bytes))
  let set_size = from_be_bytes (take 4 (drop 4 (drop 4 bytes)))
  (g, rest) ← read_point short_g invalid_g (drop 4 (drop 4 (drop 4 bytes)))
  (h_name, rest) ← read_point short_h_name invalid_h_name rest
  (generators, rest) ← read_generators l rest
  (merchants, rest) ← read_merchants l 1 rest
  ok (record {
    security_param = security_param;
    g = g;
    h_name = h_name;
    generators = generators;
    merchants = merchants;
    set_size = set_size;
  })
