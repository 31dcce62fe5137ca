-- ===== src/Proof/RoundTrip.antt =====
-- The bytes of a proof of core/payment_identity.rs, written and read.
use veiled.Prelude.{
  ℕ, ◌+◌, ◌-◌, ◌*◌, ◌/◌, ◌%◌, ◌≡◌, refl, sym, ap, ◌∙◌, subst, append-nil, arith, true, not, ltb,
  ◌==◌, [], ◌++◌, length, length-append, Bytes, flatten, AllWidth, length-flatten, At, at_start,
  field_here, after_field, array_here, ok, guard_passes,
}
use veiled.Proof.{PaymentIdentityRegistrationProof}
use veiled.Proof.Codec.{
  proof_too_short, not_multiple, epoly_start, f_start, za_start, zc_start, schnorr_r_start,
  schnorr_s_start, nullifier_scalar_start, name_scalar_start, proof_base_size,
  serialize_payment_identity_registration_proof, deserialize_payment_identity_registration_proof,
}

-- The sizes of the arrays in the Rust type of a proof.
pub record IsSized (dim : ℕ) (p : PaymentIdentityRegistrationProof) : Type 0 where
  pub a_length : length p.a ≡ 33
  pub b_length : length p.b ≡ 33
  pub c_length : length p.c ≡ 33
  pub d_length : length p.d ≡ 33
  pub e_count : length p.e_poly ≡ dim
  pub e_widths : AllWidth 33 p.e_poly
  pub f_count : length p.f ≡ dim
  pub f_widths : AllWidth 32 p.f
  pub z_a_length : length p.z_a ≡ 32
  pub z_c_length : length p.z_c ≡ 32
  pub schnorr_r_length : length p.schnorr_r ≡ 33
  pub schnorr_s_length : length p.schnorr_s ≡ 32
  pub nullifier_length : length p.nullifier_scalar ≡ 32
  pub name_length : length p.name_scalar ≡ 32
  pub z_widths : AllWidth 32 p.z_responses

At_length : {b : Bytes} {s : ℕ} {rest : Bytes} → At b s rest → length b ≡ s + length rest
At_length {rest} at =
    ap length at.laid ∙ length-append at.before rest ∙ ap (λ t. t + length rest) at.here

module _ (dim : ℕ) (p : PaymentIdentityRegistrationProof) (h : IsSized dim p) where
  abbrev bytes : Bytes
  bytes = serialize_payment_identity_registration_proof p

  -- The bytes from each field on.
  abbrev from_responses : Bytes
  from_responses = flatten p.z_responses

  abbrev from_name_scalar : Bytes
  from_name_scalar = p.name_scalar ++ from_responses

  abbrev from_nullifier_scalar : Bytes
  from_nullifier_scalar = p.nullifier_scalar ++ from_name_scalar

  abbrev from_schnorr_s : Bytes
  from_schnorr_s = p.schnorr_s ++ from_nullifier_scalar

  abbrev from_schnorr_r : Bytes
  from_schnorr_r = p.schnorr_r ++ from_schnorr_s

  abbrev from_z_c : Bytes
  from_z_c = p.z_c ++ from_schnorr_r

  abbrev from_z_a : Bytes
  from_z_a = p.z_a ++ from_z_c

  abbrev from_f : Bytes
  from_f = flatten p.f ++ from_z_a

  abbrev from_e_poly : Bytes
  from_e_poly = flatten p.e_poly ++ from_f

  abbrev from_d : Bytes
  from_d = p.d ++ from_e_poly

  abbrev from_c : Bytes
  from_c = p.c ++ from_d

  abbrev from_b : Bytes
  from_b = p.b ++ from_c

  at_b : At bytes 33 from_b
  unfolding serialize_payment_identity_registration_proof
  at_b = after_field p.a from_b 33 (at_start bytes) (omega (arith, h.a_length))

  at_c : At bytes 66 from_c
  at_c = after_field (p.b) from_c 66 at_b (omega (arith, h.b_length))

  at_d : At bytes 99 from_d
  at_d = after_field (p.c) from_d 99 at_c (omega (arith, h.c_length))

  at_e_poly : At bytes epoly_start from_e_poly
  at_e_poly = after_field (p.d) from_e_poly epoly_start at_d (omega (arith, h.d_length))

  at_f : At bytes (f_start dim) from_f
  at_f =
      after_field (flatten p.e_poly) from_f (f_start dim) at_e_poly
        (omega (arith, length-flatten 33 p.e_poly h.e_widths, h.e_count))

  at_z_a : At bytes (za_start dim) from_z_a
  at_z_a =
      after_field (flatten p.f) from_z_a (za_start dim) at_f
        (omega (arith, length-flatten 32 p.f h.f_widths, h.f_count))

  at_z_c : At bytes (zc_start dim) from_z_c
  at_z_c = after_field (p.z_a) from_z_c (zc_start dim) at_z_a (omega (arith, h.z_a_length))

  at_schnorr_r : At bytes (schnorr_r_start dim) from_schnorr_r
  at_schnorr_r =
      after_field (p.z_c) from_schnorr_r (schnorr_r_start dim) at_z_c (omega (arith, h.z_c_length))

  at_schnorr_s : At bytes (schnorr_s_start dim) from_schnorr_s
  at_schnorr_s =
      after_field (p.schnorr_r) from_schnorr_s (schnorr_s_start dim) at_schnorr_r
        (omega (arith, h.schnorr_r_length))

  at_nullifier_scalar : At bytes (nullifier_scalar_start dim) from_nullifier_scalar
  at_nullifier_scalar =
      after_field (p.schnorr_s) from_nullifier_scalar (nullifier_scalar_start dim) at_schnorr_s
        (omega (arith, h.schnorr_s_length))

  at_name_scalar : At bytes (name_scalar_start dim) from_name_scalar
  at_name_scalar =
      after_field (p.nullifier_scalar) from_name_scalar (name_scalar_start dim) at_nullifier_scalar
        (omega (arith, h.nullifier_length))

  at_responses : At bytes (proof_base_size dim) from_responses
  at_responses =
      after_field (p.name_scalar) from_responses (proof_base_size dim) at_name_scalar
        (omega (arith, h.name_length))

  laid_out : bytes ≡ p.a ++ from_b
  unfolding serialize_payment_identity_registration_proof
  laid_out = refl

  -- A proof of the sizes of its type takes the base size and 32 bytes for each response.
  pub length-serialize :
      length (serialize_payment_identity_registration_proof p)
      ≡ proof_base_size dim + length p.z_responses * 32
  length-serialize =
      At_length at_responses
      ∙ ap (λ t. proof_base_size dim + t) (length-flatten 32 p.z_responses h.z_widths)

  -- The bytes of a proof of the sizes of its type are read back to it.
  pub deserialize-serialize :
      deserialize_payment_identity_registration_proof dim
        (serialize_payment_identity_registration_proof p)
      ≡ ok p
  unfolding deserialize_payment_identity_registration_proof
  deserialize-serialize =
      let long : not (ltb (length bytes) (proof_base_size dim)) ≡ true =
        ground (arith, length-serialize) in
      let even : ((length bytes - proof_base_size dim) % 32 == 0) ≡ true =
        ground (arith, length-serialize) in
      let count : length p.z_responses ≡ (length bytes - proof_base_size dim) / 32 =
        omega (arith, length-serialize) in
      guard_passes proof_too_short _ long ∙ guard_passes not_multiple _ even ∙ λ i. ok (record {
        a = field_here p.a from_b 33 (subst (At bytes 0) laid_out (at_start bytes)) h.a_length i;
        b = field_here p.b from_c 33 at_b h.b_length i;
        c = field_here p.c from_d 33 at_c h.c_length i;
        d = field_here p.d from_e_poly 33 at_d h.d_length i;
        e_poly =
            array_here bytes epoly_start 33 dim p.e_poly from_f at_e_poly h.e_widths h.e_count i;
        f = array_here bytes (f_start dim) 32 dim p.f from_z_a at_f h.f_widths h.f_count i;
        z_a = field_here p.z_a from_z_c 32 at_z_a h.z_a_length i;
        z_c = field_here p.z_c from_schnorr_r 32 at_z_c h.z_c_length i;
        z_responses =
            array_here bytes (proof_base_size dim) 32 _ p.z_responses []
              (subst (At bytes (proof_base_size dim)) (sym (append-nil from_responses))
                at_responses)
              h.z_widths count i;
        schnorr_r = field_here p.schnorr_r from_schnorr_s 33 at_schnorr_r h.schnorr_r_length i;
        schnorr_s =
            field_here p.schnorr_s from_nullifier_scalar 32 at_schnorr_s h.schnorr_s_length i;
        nullifier_scalar =
            field_here p.nullifier_scalar from_name_scalar 32 at_nullifier_scalar h.nullifier_length
              i;
        name_scalar = field_here p.name_scalar from_responses 32 at_name_scalar h.name_length i;
      })
