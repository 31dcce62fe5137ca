-- ===== src/Proof/Codec.antt =====
-- The byte format of a proof: `serialize_payment_identity_registration_proof` and
-- `deserialize_payment_identity_registration_proof` of core/payment_identity.rs, with M as `dim`.
use veiled.Prelude.{
  ℕ, ◌+◌, ◌-◌, ◌*◌, ◌/◌, ◌%◌, not, ltb, ◌==◌, ◌++◌, length, Bytes, slice, flatten, tabulate,
  Outcome, ok, guard, ◌>>◌,
}
use veiled.Proof.{PaymentIdentityRegistrationProof}

pub data DecodeError : Type 0 where
  proof_too_short not_multiple : DecodeError

-- Where the fields start.
abbrev pub epoly_start : ℕ
epoly_start = 4 * 33

module _ (dim : ℕ) where
  abbrev pub f_start : ℕ
  f_start = epoly_start + dim * 33

  abbrev pub za_start : ℕ
  za_start = f_start + dim * 32

  abbrev pub zc_start : ℕ
  zc_start = za_start + 32

  abbrev pub schnorr_r_start : ℕ
  schnorr_r_start = zc_start + 32

  abbrev pub schnorr_s_start : ℕ
  schnorr_s_start = schnorr_r_start + 33

  abbrev pub nullifier_scalar_start : ℕ
  nullifier_scalar_start = schnorr_s_start + 32

  abbrev pub name_scalar_start : ℕ
  name_scalar_start = nullifier_scalar_start + 32

  abbrev pub proof_base_size : ℕ
  proof_base_size = 4 * 33 + dim * 33 + dim * 32 + 2 * 32 + 33 + 3 * 32

unfoldable pub serialize_payment_identity_registration_proof :
    PaymentIdentityRegistrationProof → Bytes
serialize_payment_identity_registration_proof proof =
    proof.a
    ++ (proof.b
        ++ (proof.c
            ++ (proof.d
                ++ (flatten proof.e_poly
                    ++ (flatten proof.f
                        ++ (proof.z_a
                            ++ (proof.z_c
                                ++ (proof.schnorr_r
                                    ++ (proof.schnorr_s
                                        ++ (proof.nullifier_scalar
                                            ++ (proof.name_scalar
                                                ++ flatten proof.z_responses)))))))))))

unfoldable pub deserialize_payment_identity_registration_proof :
    ℕ → Bytes → Outcome DecodeError PaymentIdentityRegistrationProof
deserialize_payment_identity_registration_proof dim b = do
  guard (not (ltb (length b) (proof_base_size dim))) proof_too_short
  let z_bytes = length b - proof_base_size dim
  guard (z_bytes % 32 == 0) not_multiple
  let z_count = z_bytes / 32
  ok (record {
    a = slice 0 33 b;
    b = slice 33 33 b;
    c = slice 66 33 b;
    d = slice 99 33 b;
    e_poly = tabulate dim (λ k. slice (epoly_start + k * 33) 33 b);
    f = tabulate dim (λ k. slice (f_start dim + k * 32) 32 b);
    z_a = slice (za_start dim) 32 b;
    z_c = slice (zc_start dim) 32 b;
    z_responses = tabulate z_count (λ i. slice (proof_base_size dim + i * 32) 32 b);
    schnorr_r = slice (schnorr_r_start dim) 33 b;
    schnorr_s = slice (schnorr_s_start dim) 32 b;
    nullifier_scalar = slice (nullifier_scalar_start dim) 32 b;
    name_scalar = slice (name_scalar_start dim) 32 b;
  })
