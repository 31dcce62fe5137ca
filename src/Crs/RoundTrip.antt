-- ===== src/Crs/RoundTrip.antt =====
-- The bytes of `Crs::to_bytes` under `Crs::from_bytes`, core/crs.rs.
use veiled.Prelude.{
  ℕ, suc, ◌^◌, ◌≤◌, ◌<◌, ◌≡◌, refl, sym, ap, ap₂, ◌∙◌, arith, true, not, ltb, List, [], ◌∷◌, ◌++◌,
  append_assoc, length, length-append, take-append, drop-append, Bytes, to_be_bytes, from_be_bytes,
  length-to_be_bytes, from_be_bytes-to_be_bytes, is_utf8, ok, ok_or, guard, ◌>>=◌, ◌>>◌, bind-ok,
  guard_passes,
}
use veiled.Crypto.{Crypto, Point}
use veiled.Types.{max_len}
use veiled.Types.Name
use veiled.Types.Name.{Name}
use veiled.Merchant.{Merchant}
use veiled.Utils.{points_bytes}
use veiled.Crs.{Crs}
use veiled.Crs.Codec.{
  CrsError, short_header, short_g, invalid_g, short_h_name, invalid_h_name, text_bytes,
  merchant_bytes, merchants_bytes, to_bytes, read, read_point, read_generators, read_text,
  read_name, read_merchant, read_merchants, from_bytes,
}

-- What a merchant must be to be read back.
pub record IsReadable (m : Merchant) : Type 0 where
  pub name_short : length m.name.text ≤ max_len
  pub name_utf8 : is_utf8 m.name.text ≡ true
  pub generator_length : length m.credential_generator ≡ 33
  pub origin_short : length m.origin < 2 ^ 16
  pub origin_utf8 : is_utf8 m.origin ≡ true

abbrev pub AllReadable : List Merchant → Type 0
AllReadable [] = Unit
AllReadable (m ∷ ms) = IsReadable m × AllReadable ms

-- The merchant as it is read: numbered by its position, with no registered identities.
abbrev pub renumbered : ℕ → List Merchant → List Merchant
renumbered i [] = []
renumbered i (m ∷ ms) =
    record m { merchant_id = i; registered_identities = [] } ∷ renumbered (suc i) ms

read-append :
    (n : ℕ) (e : CrsError) (xs rest : Bytes) → length xs ≡ n → read n e (xs ++ rest) ≡ ok (xs, rest)
unfolding read
read-append n e xs rest h =
    let t : not (ltb (length (xs ++ rest)) n) ≡ true = ground (arith, length-append xs rest) in
    guard_passes e _ t ∙ rw (take-append xs rest n h, drop-append xs rest n h)

read_text-text_bytes :
    (e1 e2 e3 : CrsError) (text rest : Bytes)
    → length text < 2 ^ 16
    → is_utf8 text ≡ true
    → read_text e1 e2 e3 (text_bytes text ++ rest) ≡ ok (text, rest)
unfolding read_text text_bytes
read_text-text_bytes e1 e2 e3 text rest short utf8 =
    ap
      (λ t. read 2 e1 t >>= λ (len, rest). read (from_be_bytes len) e2 rest >>= λ (text, rest).
        guard (is_utf8 text) e3 >> ok (text, rest))
      (append_assoc (to_be_bytes 2 (length text)) text rest)
    ∙ bind-ok _ (
        read-append 2 e1 (to_be_bytes 2 (length text)) (text ++ rest)
          (length-to_be_bytes 2 (length text)))
    ∙ bind-ok _
        (read-append _ e2 text rest (sym (from_be_bytes-to_be_bytes 2 (length text) (omega arith))))
    ∙ guard_passes e3 _ utf8

header_enough :
    (a b d : ℕ) (body : Bytes)
    → not (ltb (length (to_be_bytes 4 a ++ (to_be_bytes 4 b ++ (to_be_bytes 4 d ++ body)))) 12)
      ≡ true
header_enough a b d body = ground arith

merchant_bytes-laid :
    (m : Merchant) (rest : Bytes)
    → merchant_bytes m ++ rest
      ≡ text_bytes m.name.text ++ (m.credential_generator ++ (text_bytes m.origin ++ rest))
unfolding merchant_bytes
merchant_bytes-laid m rest =
    append_assoc (text_bytes m.name.text) (m.credential_generator ++ text_bytes m.origin) rest
    ∙ ap (λ t. text_bytes m.name.text ++ t)
        (append_assoc m.credential_generator (text_bytes m.origin) rest)

read_merchant-merchant_bytes :
    (id : ℕ) (m : Merchant) (rest : Bytes)
    → IsReadable m
    → read_merchant id (merchant_bytes m ++ rest)
      ≡ ok (record m { merchant_id = id; registered_identities = [] }, rest)
unfolding read_merchant
read_merchant-merchant_bytes id m rest h =
    ap (read_merchant id) (merchant_bytes-laid m rest)
    ∙ bind-ok _ (read_text-text_bytes _ _ _ m.name.text _ (omega (arith, h.name_short)) h.name_utf8)
    ∙ bind-ok _ (ap read_name (Name.try_new_short m.name.text h.name_short))
    ∙ bind-ok _ (read-append 33 _ m.credential_generator _ h.generator_length)
    ∙ bind-ok _ (read_text-text_bytes _ _ _ m.origin rest h.origin_short h.origin_utf8)

read_merchants-merchants_bytes :
    (id : ℕ) (ms : List Merchant) (rest : Bytes)
    → AllReadable ms
    → read_merchants (length ms) id (merchants_bytes ms ++ rest) ≡ ok (renumbered id ms, rest)
unfolding read_merchants merchants_bytes
read_merchants-merchants_bytes id [] rest h = refl
read_merchants-merchants_bytes id (m ∷ ms) rest (h, hs) =
    ap (read_merchants (suc (length ms)) id)
      (append_assoc (merchant_bytes m) (merchants_bytes ms) rest)
    ∙ bind-ok _ (read_merchant-merchant_bytes id m (merchants_bytes ms ++ rest) h)
    ∙ bind-ok _ (read_merchants-merchants_bytes (suc id) ms rest hs)

module _ ⦃c : Crypto⦄ where
  read_point-append :
      (e1 e2 : CrsError) (p : Point) (rest : Bytes)
      → read_point e1 e2 (c.point_to_bytes p ++ rest) ≡ ok (p, rest)
  unfolding read_point
  read_point-append e1 e2 p rest =
      bind-ok _ (read-append 33 e1 (c.point_to_bytes p) rest (c.length-point_to_bytes p))
      ∙ bind-ok _ (ap (λ o. ok_or o e2) (c.point_from_bytes-point_to_bytes p))

  read_generators-points_bytes :
      (ps : List Point) (rest : Bytes)
      → read_generators (length ps) (points_bytes ps ++ rest) ≡ ok (ps, rest)
  unfolding read_generators points_bytes
  read_generators-points_bytes [] rest = refl
  read_generators-points_bytes (p ∷ ps) rest =
      ap (read_generators (suc (length ps)))
        (append_assoc (c.point_to_bytes p) (points_bytes ps) rest)
      ∙ bind-ok _ (read_point-append _ _ p (points_bytes ps ++ rest))
      ∙ bind-ok _ (read_generators-points_bytes ps rest)

  to_bytes-laid :
      (crs : Crs) (rest : Bytes)
      → to_bytes crs ++ rest
        ≡ to_be_bytes 4 crs.security_param
          ++ (to_be_bytes 4 (length crs.generators)
              ++ (to_be_bytes 4 crs.set_size
                  ++ (c.point_to_bytes crs.g
                      ++ (c.point_to_bytes crs.h_name
                          ++ (points_bytes crs.generators
                              ++ (merchants_bytes crs.merchants ++ rest))))))
  unfolding to_bytes
  to_bytes-laid crs rest =
      let gens = points_bytes crs.generators ++ merchants_bytes crs.merchants in
      let points = c.point_to_bytes crs.g ++ (c.point_to_bytes crs.h_name ++ gens) in
      let after_count = to_be_bytes 4 crs.set_size ++ points in
      append_assoc (to_be_bytes 4 crs.security_param)
        (to_be_bytes 4 (length crs.generators) ++ after_count) rest
      ∙ ap (λ t. to_be_bytes 4 crs.security_param ++ t)
          (append_assoc (to_be_bytes 4 (length crs.generators)) after_count rest
            ∙ ap (λ t. to_be_bytes 4 (length crs.generators) ++ t)
                (append_assoc (to_be_bytes 4 crs.set_size) points rest
                  ∙ ap (λ t. to_be_bytes 4 crs.set_size ++ t)
                      (append_assoc (c.point_to_bytes crs.g) (c.point_to_bytes crs.h_name ++ gens)
                          rest
                        ∙ ap (λ t. c.point_to_bytes crs.g ++ t)
                            (append_assoc (c.point_to_bytes crs.h_name) gens rest
                              ∙ ap (λ t. c.point_to_bytes crs.h_name ++ t)
                                  (append_assoc (points_bytes crs.generators)
                                    (merchants_bytes crs.merchants) rest)))))

  -- A CRS whose counts fit in 32 bits, with a generator for each merchant and readable merchants, is
  -- read back from its bytes, whatever follows them: all its fields, with the merchants numbered by
  -- their positions and without registered identities.
  pub from_bytes-to_bytes :
      (crs : Crs) (rest : Bytes)
      → crs.security_param < 2 ^ 32
      → crs.set_size < 2 ^ 32
      → length crs.generators < 2 ^ 32
      → length crs.merchants ≡ length crs.generators
      → AllReadable crs.merchants
      → from_bytes (to_bytes crs ++ rest)
        ≡ ok (record crs { merchants = renumbered 1 crs.merchants })
  unfolding from_bytes
  from_bytes-to_bytes crs rest hp hs hl same readable =
      let after_gens = merchants_bytes crs.merchants ++ rest in
      let after_h_name = points_bytes crs.generators ++ after_gens in
      let after_g = c.point_to_bytes crs.h_name ++ after_h_name in
      let body = c.point_to_bytes crs.g ++ after_g in
      let count : from_be_bytes (to_be_bytes 4 (length crs.generators)) ≡ length crs.generators =
        from_be_bytes-to_be_bytes 4 (length crs.generators) (omega arith) in
      ap from_bytes (to_bytes-laid crs rest)
      ∙ guard_passes short_header _
          (header_enough crs.security_param (length crs.generators) crs.set_size body)
      ∙ bind-ok _ (read_point-append short_g invalid_g crs.g after_g)
      ∙ bind-ok _ (read_point-append short_h_name invalid_h_name crs.h_name after_h_name)
      ∙ bind-ok _ (
          ap (λ n. read_generators n after_h_name) count
          ∙ read_generators-points_bytes crs.generators after_gens)
      ∙ bind-ok _ (
          ap (λ n. read_merchants n 1 after_gens) (count ∙ sym same)
          ∙ read_merchants-merchants_bytes 1 crs.merchants rest readable)
      ∙ ap₂
          (λ p n. ok (record crs {
            security_param = p;
            set_size = n;
            merchants = renumbered 1 crs.merchants;
          }))
          (from_be_bytes-to_be_bytes 4 crs.security_param (omega arith))
          (from_be_bytes-to_be_bytes 4 crs.set_size (omega arith))
