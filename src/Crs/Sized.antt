-- ===== src/Crs/Sized.antt =====
-- What `Crs::from_bytes` of core/crs.rs accepts.
use veiled.Prelude.{
  ℕ, zero, suc, ◌≡◌, sym, ap, ◌∙◌, not, ltb, List, length, take, drop, Bytes, from_be_bytes, ok,
  guard_inverts, bind_inverts, ok_injective,
}
use veiled.Crypto.{Crypto, Point}
use veiled.Merchant.{Merchant}
use veiled.Crs.{Crs, num_merchants}
use veiled.Crs.Codec.{
  short_g, invalid_g, short_h_name, invalid_h_name, short_generators, invalid_h, read_point,
  read_generators, read_merchant, read_merchants, from_bytes,
}

module _ ⦃c : Crypto⦄ where
  length-read_generators :
      (l : ℕ) (bytes rest : Bytes) (ps : List Point)
      → read_generators l bytes ≡ ok (ps, rest)
      → length ps ≡ l
  unfolding read_generators
  length-read_generators zero bytes rest ps e = ap (λ t. length t.0) (sym (ok_injective e))
  length-read_generators (suc l) bytes rest ps e =
      let ((p, r1), (_, e1)) = bind_inverts (read_point short_generators invalid_h bytes) _ e in
      let ((qs, r2), (more, e2)) = bind_inverts (read_generators l r1) _ e1 in
      ap (λ t. length t.0) (sym (ok_injective e2)) ∙ ap suc (length-read_generators l r1 r2 qs more)

length-read_merchants :
    (l id : ℕ) (bytes rest : Bytes) (ms : List Merchant)
    → read_merchants l id bytes ≡ ok (ms, rest)
    → length ms ≡ l
unfolding read_merchants
length-read_merchants zero id bytes rest ms e = ap (λ t. length t.0) (sym (ok_injective e))
length-read_merchants (suc l) id bytes rest ms e =
    let ((m, r1), (_, e1)) = bind_inverts (read_merchant id bytes) _ e in
    let ((ns, r2), (more, e2)) = bind_inverts (read_merchants l (suc id) r1) _ e1 in
    ap (λ t. length t.0) (sym (ok_injective e2))
    ∙ ap suc (length-read_merchants l (suc id) r1 r2 ns more)

module _ ⦃c : Crypto⦄ where
  -- Whatever bytes a CRS is read from, it has a generator for each merchant.
  pub from_bytes-generators :
      (bytes : Bytes) (crs : Crs)
      → from_bytes bytes ≡ ok crs
      → length crs.generators ≡ num_merchants crs
  unfolding from_bytes num_merchants
  from_bytes-generators bytes crs e =
      let l = from_be_bytes (take 4 (drop 4 bytes)) in
      let (_, e1) = guard_inverts (not (ltb (length bytes) 12)) _ _ e in
      let ((g, r1), (_, e2)) =
        bind_inverts (read_point short_g invalid_g (drop 4 (drop 4 (drop 4 bytes)))) _ e1 in
      let ((h, r2), (_, e3)) = bind_inverts (read_point short_h_name invalid_h_name r1) _ e2 in
      let ((gens, r3), (gens_read, e4)) = bind_inverts (read_generators l r2) _ e3 in
      let ((ms, r4), (ms_read, e5)) = bind_inverts (read_merchants l 1 r3) _ e4 in
      ap (λ t. length t.generators) (sym (ok_injective e5))
      ∙ length-read_generators l r2 r3 gens gens_read
      ∙ sym (length-read_merchants l 1 r3 r4 ms ms_read)
      ∙ ap (λ t. length t.merchants) (ok_injective e5)
