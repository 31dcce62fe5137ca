-- ===== src/Commands/Payment.antt =====
-- A payment request through bin/veiled_core.rs: created by one command, verified by another.
use veiled.Prelude.{◌≡◌, refl, ap, ◌∙◌, true, some, Bytes, ok, ok_or, map_err, bind-ok}
use veiled.Crypto.{Crypto, Scalar, Point}
use veiled.Types.Name
use veiled.Types.Name.{Name}
use veiled.Request.{prove_payment_request, derive_payment_request_pseudonym, create_payment_request}
use veiled.Request.Complete.{verify-create_payment_request}
use veiled.Request.Address.{Addresses, regtest, pseudonym_to_address, invalid_pseudonym}
use veiled.Hex.{Hex}
use veiled.Commands.Json.{
  CoreError, address_error, invalid_point, CreatePaymentRequestParams, VerifyPaymentRequestParams,
  CreatePaymentRequestResponse, payment_request_created, payment_request_verified, address_of,
}
use veiled.Commands.Handlers.{
  hex_to_32, hex_to_33, log_prefix, handle_create_payment_request, handle_verify_payment_request,
  handle_pseudonym_to_address,
}
use veiled.Commands.Hexes.{hex_to_32-encode, hex_to_33-encode}

module _ ⦃c : Crypto⦄ ⦃x : Hex⦄ ⦃a : Addresses⦄ where
  -- What a payer hands to verify-payment-request: the answer of create-payment-request.
  abbrev pub presented : Bytes → CreatePaymentRequestResponse → VerifyPaymentRequestParams
  presented crs_g_hex resp = record {
    crs_g_hex = crs_g_hex;
    pseudonym_hex = resp.pseudonym;
    proof_r_hex = resp.proof_r;
    proof_s_hex = resp.proof_s;
  }

  -- A request over the randomness and the generator that the parameters name is created with the
  -- amount that was asked for. When the pseudonym has an address and its hex text is a text that the
  -- log can cut at 16 bytes, verify-payment-request answers that the request is valid, and it and
  -- pseudonym-to-address answer the same address: the Taproot address of the pseudonym.
  pub create_payment_request-verify :
      (p : CreatePaymentRequestParams) (t : Scalar) (r : Bytes) (name : Name) (g_bytes : Bytes)
      (g : Point) (key : Bytes)
      → hex_to_32 p.credential_r_hex ≡ ok r
      → Name.new {E = CoreError} p.merchant_name ≡ ok name
      → hex_to_33 p.crs_g_hex ≡ ok g_bytes
      → c.point_from_bytes g_bytes ≡ some g
      → a.x_only_from_slice (derive_payment_request_pseudonym r name g) ≡ some key
      → log_prefix (x.encode (derive_payment_request_pseudonym r name g)) ≡ ok tt
      → (resp : CreatePaymentRequestResponse) × ((handle_create_payment_request t p
            ≡ ok (payment_request_created resp))
          × ((resp.amount ≡ p.amount)
              × ((handle_verify_payment_request (presented p.crs_g_hex resp)
                    ≡ ok (payment_request_verified true (a.p2tr key regtest)))
                  × (handle_pseudonym_to_address (record { pseudonym_hex = resp.pseudonym })
                      ≡ ok (address_of (a.p2tr key regtest))))))
  unfolding handle_create_payment_request handle_verify_payment_request handle_pseudonym_to_address
      pseudonym_to_address create_payment_request derive_payment_request_pseudonym
      prove_payment_request
  create_payment_request-verify p t r name g_bytes g key is_r is_name is_g on_curve has_address
        logged =
      let req = create_payment_request r name g p.amount t in
      let (same, valid) = verify-create_payment_request r name g p.amount t in
      let located : map_err address_error (pseudonym_to_address req.pseudonym regtest)
          ≡ ok (a.p2tr key regtest) =
        ap (map_err address_error) (bind-ok _ (ap (λ o. ok_or o invalid_pseudonym) has_address)) in
      let pseudonym_read : hex_to_33 (x.encode req.pseudonym) ≡ ok req.pseudonym =
        hex_to_33-encode req.pseudonym (c.length-point_to_bytes _) in
      (
        _,
        (
          bind-ok _ is_r
              ∙ bind-ok _ is_name
              ∙ bind-ok _ is_g
              ∙ bind-ok _ (ap (λ o. ok_or o invalid_point) on_curve),
          (
            refl,
            (
              bind-ok _ logged
                  ∙ bind-ok _ is_g
                  ∙ bind-ok _ (ap (λ o. ok_or o invalid_point) on_curve)
                  ∙ bind-ok _ pseudonym_read
                  ∙ bind-ok _ (hex_to_33-encode req.proof.r (c.length-point_to_bytes _))
                  ∙ bind-ok _ (hex_to_32-encode req.proof.s (c.length-scalar_to_bytes _))
                  ∙ bind-ok _ located
                  ∙ ap (λ v. ok (payment_request_verified v (a.p2tr key regtest))) valid,
              bind-ok _ logged ∙ bind-ok _ pseudonym_read ∙ bind-ok _ located,
            ),
          ),
        ),
      )
