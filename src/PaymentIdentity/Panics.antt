-- ===== src/PaymentIdentity/Panics.antt =====
-- The prover over a set with a commitment that encodes no point.
use veiled.Prelude.{
  ℕ, zero, suc, ◌^◌, ◌≤◌, ◌<◌, ◌≡◌, ap, ◌∙◌, arith, inl, inr, true, ◌&&◌, leb, ltb, ◌==◌, List, [],
  ◌∷◌, none, some, Option-cases, length, get_elem?, Bytes, ok, panic, expect, ◌>>=◌, guard_passes,
  bind-ok, bind-panic,
}
use veiled.Crypto.{Crypto, Point, ◌⊟◌}
use veiled.Types.{Commitment, Nullifier}
use veiled.Crs.{Crs, num_merchants}
use veiled.PaymentIdentity.Prove.{
  Nonces, shift_all, prove_payment_identity_registration, set_len, index_range, service_index_range,
  nullifier_count,
}
use veiled.PaymentIdentity.Others.{h_in_range}

module _ ⦃c : Crypto⦄ where
  shift_all-panics {κ} :
      {E : Type κ} (shift : Point) (xs : List Commitment) (i : ℕ) (x : Commitment)
      → get_elem? xs i ≡ some x
      → c.point_from_bytes x ≡ none
      → shift_all {E = E} shift xs ≡ panic
  unfolding shift_all
  shift_all-panics shift [] i x at bad = absurd (ground arith)
  shift_all-panics shift (y ∷ ys) zero x at bad =
      ap (λ o. expect o >>= λ pt. shift_all shift ys >>= λ rest. ok ((pt ⊟ shift) ∷ rest))
        (ap c.point_from_bytes some_injective ∙ bad)
    where
      some_injective : y ≡ x
      some_injective = ground arith
  shift_all-panics {E} shift (y ∷ ys) (suc i) x at bad =
      elim (Option-cases (c.point_from_bytes y)) [
        | inl h ↦
            ap (λ o. expect o >>= λ pt. shift_all shift ys >>= λ rest. ok ((pt ⊟ shift) ∷ rest)) h
        | inr (p, h) ↦
            ap (λ o. expect o >>= λ pt. shift_all shift ys >>= λ rest. ok ((pt ⊟ shift) ∷ rest)) h
            ∙ ap (λ m. m >>= λ rest. ok ((p ⊟ shift) ∷ rest))
                (shift_all-panics {E = E} shift ys i x at bad)
      ]

  -- If one commitment of the set is not the encoding of a point, the prover panics for every member
  -- of the set, every service and all nonces, although its arguments pass all its checks.
  pub prove-panics :
      (dim : ℕ) (crs : Crs) (anonymity_set : List Commitment) (index service_index : ℕ)
      (set_id blinding_key : Bytes) (nullifiers : List Nullifier)
      (pseudonym public_nullifier name_scalar : Bytes) (n : Nonces) (i : ℕ) (x : Commitment)
      → length crs.generators ≡ num_merchants crs
      → length anonymity_set ≡ 2 ^ dim
      → index < 2 ^ dim
      → 1 ≤ service_index
      → service_index ≤ num_merchants crs
      → length nullifiers ≡ num_merchants crs
      → get_elem? anonymity_set i ≡ some x
      → c.point_from_bytes x ≡ none
      → prove_payment_identity_registration dim crs anonymity_set index service_index set_id
          blinding_key nullifiers pseudonym public_nullifier name_scalar n
        ≡ panic
  unfolding prove_payment_identity_registration
  prove-panics dim crs set index l set_id key nuls pn nul name n i x ge sl hi l1 l2 nl at bad =
      let t1 : (length set == 2 ^ dim) ≡ true = ground arith in
      let t2 : ltb index (2 ^ dim) ≡ true = ground arith in
      let t3 : (leb 1 l && leb l (num_merchants crs)) ≡ true = ground arith in
      let t4 : (length nuls == num_merchants crs) ≡ true = ground arith in
      guard_passes set_len _ t1
      ∙ guard_passes index_range _ t2
      ∙ guard_passes service_index_range _ t3
      ∙ guard_passes nullifier_count _ t4
      ∙ bind-ok _ (h_in_range crs l l1 (omega arith))
      ∙ bind-panic _ (shift_all-panics _ set i x at bad)
