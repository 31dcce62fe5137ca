-- ===== src/PaymentIdentity/Sized.antt =====
-- The sizes of what the prover of core/payment_identity.rs returns.
use veiled.Prelude.{
  ℕ, zero, suc, ◌-◌, ◌<◌, ◌^◌, ◌≡◌, ◌∙◌, subst, arith, leb, ltb, ◌==◌, ◌&&◌, List, [], ◌∷◌, map,
  length, get_or, tabulate_from, length-map, length-tabulate_from, Bytes, AllWidth, ok,
  guard_inverts, bind_inverts, ok_injective,
}
use veiled.Crypto.{Crypto, Point}
use veiled.Types.{Nullifier, Commitment}
use veiled.Proof.{PaymentIdentityRegistrationProof}
use veiled.Proof.RoundTrip.{IsSized}
use veiled.Crs.{Crs, num_merchants, h}
use veiled.PaymentIdentity.Prove.{
  Nonces, shift_all, generators_at, others, assemble, prove_payment_identity_registration,
}

pub AllWidth-get_or :
    (w i : ℕ) (xs : List Bytes) → AllWidth w xs → i < length xs → length (get_or xs i []) ≡ w
AllWidth-get_or w i [] h lt = elim lt [ ]
AllWidth-get_or w zero (x ∷ xs) (e, h) lt = e
AllWidth-get_or w (suc i) (x ∷ xs) (e, h) lt = AllWidth-get_or w i xs h (omega arith)

module _ {ℓ} {A : Type ℓ} (w : ℕ) (f : A → Bytes) (wide : (a : A) → length (f a) ≡ w) where
  pub AllWidth-map : (xs : List A) → AllWidth w (map f xs)
  AllWidth-map [] = tt
  AllWidth-map (x ∷ xs) = (wide x, AllWidth-map xs)

  AllWidth-tabulate_from : (i n : ℕ) (g : ℕ → A) → AllWidth w (tabulate_from i n (λ k. f (g k)))
  AllWidth-tabulate_from i zero g = tt
  AllWidth-tabulate_from i (suc n) g = (wide (g i), AllWidth-tabulate_from (suc i) n g)

module _ ⦃c : Crypto⦄ (dim : ℕ) where
  assemble-IsSized :
      (crs : Crs) (index l : ℕ) (set_id key : Bytes) (nuls : List Nullifier)
      (pseudonym public_nullifier name_scalar : Bytes) (n : Nonces) (d_set gens : List Point)
      → length (get_or nuls (l - 1) []) ≡ 32
      → length name_scalar ≡ 32
      → IsSized dim (
          assemble dim crs index l set_id key nuls pseudonym public_nullifier name_scalar n d_set
            gens)
  unfolding assemble
  assemble-IsSized crs index l id key nuls pn nul name n d_set gens hn hs = record {
    a_length = c.length-point_to_bytes _;
    b_length = c.length-point_to_bytes _;
    c_length = c.length-point_to_bytes _;
    d_length = c.length-point_to_bytes _;
    e_count = length-map c.point_to_bytes _ ∙ length-tabulate_from 0 dim _;
    e_widths = AllWidth-map 33 c.point_to_bytes c.length-point_to_bytes _;
    f_count = length-tabulate_from 0 dim _;
    f_widths = AllWidth-tabulate_from 32 c.scalar_to_bytes c.length-scalar_to_bytes 0 dim _;
    z_a_length = c.length-scalar_to_bytes _;
    z_c_length = c.length-scalar_to_bytes _;
    schnorr_r_length = c.length-point_to_bytes _;
    schnorr_s_length = c.length-scalar_to_bytes _;
    nullifier_length = hn;
    name_length = hs;
    z_widths = AllWidth-map 32 c.scalar_to_bytes c.length-scalar_to_bytes _;
  }

  -- Whatever the prover returns has the sizes of the type of a proof, if the nullifiers and the name
  -- scalar have 32 bytes.
  pub prove-IsSized :
      (crs : Crs) (set : List Commitment) (index l : ℕ) (set_id key : Bytes) (nuls : List Nullifier)
      (pseudonym public_nullifier name_scalar : Bytes) (n : Nonces)
      (proof : PaymentIdentityRegistrationProof)
      → AllWidth 32 nuls
      → length name_scalar ≡ 32
      → prove_payment_identity_registration dim crs set index l set_id key nuls pseudonym
          public_nullifier name_scalar n
        ≡ ok proof
      → IsSized dim proof
  unfolding prove_payment_identity_registration
  prove-IsSized crs set index l id key nuls pn nul name n proof wide hs e =
      let (_, e1) = guard_inverts (length set == 2 ^ dim) _ _ e in
      let (_, e2) = guard_inverts (ltb index (2 ^ dim)) _ _ e1 in
      let (in_range, e3) = guard_inverts (leb 1 l && leb l (num_merchants crs)) _ _ e2 in
      let (count, e4) = guard_inverts (length nuls == num_merchants crs) _ _ e3 in
      let (hl, (_, e5)) = bind_inverts (h crs l) _ e4 in
      let (ds, (_, e6)) = bind_inverts (shift_all _ set) _ e5 in
      let (hs', (_, e7)) = bind_inverts (generators_at crs (others l (num_merchants crs))) _ e6 in
      let lt : l - 1 < length nuls = ground arith in
      subst (IsSized dim) (ok_injective e7) (
        assemble-IsSized crs index l id key nuls pn nul name n ds _
          (AllWidth-get_or 32 (l - 1) nuls wide lt) hs)
