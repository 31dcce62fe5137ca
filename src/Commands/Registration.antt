-- ===== src/Commands/Registration.antt =====
-- The two sides of a registration through bin/veiled_core.rs.
use veiled.Prelude.{
  ◌-◌, map_err_inverts, on_ok_passes, ℕ, ◌≤◌, ◌<◌, ◌^◌, ◌≡◌, refl, sym, ap, ◌∙◌, subst, arith, List,
  [], length, take, take-append, replicate, get_elem?_found, none, some, Bytes, to_le_bytes,
  from_le_bytes, length-to_le_bytes, from_le_bytes-to_le_bytes, list_eq, nat_eq, ok, ok_or, map_err,
  collect, bind-ok, bind_inverts,
}
use veiled.Prelude.Map
use veiled.Crypto.{Crypto}
use veiled.Types.{max_len, Commitment}
use veiled.Merchant
use veiled.Request.{derive_payment_request_pseudonym}
use veiled.Merchant.{Merchant}
use veiled.Merchant.Receive.{receive_payment_registration}
use veiled.Crs.{Crs, num_merchants}
use veiled.Crs.Codec.{from_bytes}
use veiled.Crs.Sized.{from_bytes-generators}
use veiled.Credential.{MasterCredential, create}
use veiled.Proof.{PaymentIdentityRegistration}
use veiled.Proof.Codec.{serialize_payment_identity_registration_proof}
use veiled.Proof.RoundTrip.{deserialize-serialize}
use veiled.PaymentIdentity.Decoded.{AllPoints}
use veiled.PaymentIdentity.Prove.{Nonces}
use veiled.Beneficiary.{
  not_in_set, Beneficiary, position_from, register, create_payment_registration,
}
use veiled.Beneficiary.Register.{create_payment_registration-receive}
use veiled.Beneficiary.Sized.{IsRegistration, create_payment_registration-IsRegistration}
use veiled.Hex.{Hex}
use veiled.Commands.Json.{
  CoreError, hex_decode, decode_error, registration_error, receive_error, CreatePaymentIdParams,
  ReceivePaymentIdParams, CreatePaymentIdResponse, payment_id_created, payment_id_received,
  crs_error,
}
use veiled.Commands.Handlers.{
  hex_to_33, to_credential, read_crs, set_id_bytes, handle_create_payment_id,
  handle_receive_payment_id,
}
use veiled.Commands.Hexes.{hex_to_33-encode}

set_id_read : (n : ℕ) → n < 2 ^ 64 → from_le_bytes (take 8 (set_id_bytes n)) ≡ n
unfolding set_id_bytes
set_id_read n small =
    ap from_le_bytes (take-append (to_le_bytes 8 n) (replicate 24 0) 8 (length-to_le_bytes 8 n))
    ∙ from_le_bytes-to_le_bytes 8 n (omega arith)

module _ ⦃c : Crypto⦄ ⦃x : Hex⦄ where
  read_crs-generators :
      (crs_hex : Bytes) (crs : Crs)
      → read_crs crs_hex ≡ ok crs
      → length crs.generators ≡ num_merchants crs
  unfolding read_crs
  read_crs-generators crs_hex crs e =
      let (bytes, (_, e1)) = bind_inverts (ok_or (x.decode crs_hex) hex_decode) _ e in
      from_bytes-generators bytes crs (map_err_inverts crs_error (from_bytes bytes) e1)

  -- The answer that a registration is turned into.
  abbrev pub response_of : PaymentIdentityRegistration → CreatePaymentIdResponse
  response_of reg = record {
    pseudonym = x.encode reg.pseudonym;
    nullifier = x.encode reg.public_nullifier;
    proof_hex = x.encode (serialize_payment_identity_registration_proof reg.proof);
    friendly_name = reg.friendly_name;
    service_index = reg.service_index;
    set_id = from_le_bytes (take 8 reg.set_id);
  }

  -- What a caller hands to the merchant's side: the answer of the other side, with the CRS and the set.
  abbrev pub forwarded :
      CreatePaymentIdParams → CreatePaymentIdResponse → Bytes → Bytes → ReceivePaymentIdParams
  forwarded p resp merchant_name merchant_origin = record {
    crs_hex = p.crs_hex;
    commitments_hex = p.commitments_hex;
    pseudonym_hex = resp.pseudonym;
    nullifier_hex = resp.nullifier;
    set_id = resp.set_id;
    service_index = resp.service_index;
    friendly_name = resp.friendly_name;
    proof_hex = resp.proof_hex;
    merchant_name = merchant_name;
    merchant_origin = merchant_origin;
  }

  -- The merchant's side reads back the registration that the answer stands for.
  forwarded-reads :
      (dim : ℕ) (p : CreatePaymentIdParams) (reg : PaymentIdentityRegistration)
      (name origin : Bytes) (crs : Crs) (set : List Commitment) (shop : Merchant) (accepted : Bytes)
      → p.set_id < 2 ^ 64
      → IsRegistration dim (set_id_bytes p.set_id) p.merchant_id reg.friendly_name reg
      → read_crs p.crs_hex ≡ ok crs
      → collect hex_to_33 p.commitments_hex ≡ ok set
      → Merchant.new {E = CoreError} name origin ≡ ok shop
      → (receive_payment_registration dim shop crs set reg).1 ≡ ok accepted
      → handle_receive_payment_id dim (forwarded p (response_of reg) name origin)
        ≡ ok (payment_id_received (x.encode accepted))
  unfolding handle_receive_payment_id
  forwarded-reads dim p reg name origin crs set shop accepted small made is_crs is_set is_shop
        received =
      let same_id : set_id_bytes (from_le_bytes (take 8 reg.set_id)) ≡ reg.set_id =
        ap (λ b. set_id_bytes (from_le_bytes (take 8 b))) made.for_set
        ∙ ap set_id_bytes (set_id_read p.set_id small)
        ∙ sym made.for_set in
      bind-ok _ is_crs
      ∙ bind-ok _ is_set
      ∙ bind-ok _ (ap (λ o. ok_or o hex_decode) (x.decode-encode _))
      ∙ bind-ok _ (ap (map_err decode_error) (deserialize-serialize dim reg.proof made.proof_sized))
      ∙ bind-ok _ (hex_to_33-encode reg.pseudonym made.pseudonym_length)
      ∙ bind-ok _ (hex_to_33-encode reg.public_nullifier made.nullifier_length)
      ∙ bind-ok _ is_shop
      ∙ bind-ok _ (
          ap
            (λ id.
              map_err receive_error
                (receive_payment_registration dim shop crs set (record reg { set_id = id })).1)
            same_id
          ∙ ap (map_err receive_error) received)

  -- A credential that was created over the CRS, at the position that register-locally finds in a set
  -- of 2^M points: create-payment-id answers for every merchant of the CRS, and receive-payment-id
  -- accepts the answer with the same CRS and set, and answers with its pseudonym.
  pub create_payment_id-receive :
      (dim : ℕ) (p : CreatePaymentIdParams) (nonces : Nonces) (name origin : Bytes)
      (cred : MasterCredential) (crs : Crs) (set : List Commitment)
      → to_credential p.credential ≡ ok cred
      → read_crs p.crs_hex ≡ ok crs
      → collect hex_to_33 p.commitments_hex ≡ ok set
      → create {E = CoreError} crs cred.sk cred.r cred.k cred.friendly_name ≡ ok cred
      → length set ≡ 2 ^ dim
      → AllPoints set
      → position_from 0 set cred.phi ≡ some p.index
      → 1 ≤ p.merchant_id
      → p.merchant_id ≤ num_merchants crs
      → p.set_id < 2 ^ 64
      → length name ≤ max_len
      → (resp : CreatePaymentIdResponse) × ((handle_create_payment_id dim nonces p
            ≡ ok (payment_id_created resp))
          × (handle_receive_payment_id dim (forwarded p resp name origin)
              ≡ ok (payment_id_received resp.pseudonym)))
  unfolding handle_create_payment_id register num_merchants
  create_payment_id-receive dim p nonces name origin cred crs set is_cred is_crs is_set created len
        points at l1 l2 small short =
      let ben : Beneficiary = record {
        credential = cred;
        set_id = none;
        index = none;
        anonymity_set = none;
        registrations = [];
      } in
      let member : Beneficiary = record {
        credential = cred;
        set_id = some (set_id_bytes p.set_id);
        index = some p.index;
        anonymity_set = some set;
        registrations = [];
      } in
      let registered : register ben (set_id_bytes p.set_id) set ≡ (member, ok tt) =
        on_ok_passes ben _ (ap (λ o. ok_or o not_in_set) at) in
      let (m, found) = get_elem?_found crs.merchants (p.merchant_id - 1) (omega arith) in
      let (shop, (is_shop, fresh)) = Merchant.new_short name origin short in
      let (reg, (made, (_, (_, received)))) =
        create_payment_registration-receive {E = CoreError} dim crs ben (set_id_bytes p.set_id) set
          p.merchant_id nonces m shop (read_crs-generators p.crs_hex crs is_crs) created len points
          (ap (λ t. t.1) registered) l1 l2 found
          (ap (λ t. Map.get t (derive_payment_request_pseudonym cred.r m.name crs.g)) fresh) in
      let answered : (create_payment_registration dim member crs p.merchant_id nonces).1 ≡ ok reg =
        ap (λ t. (create_payment_registration dim t.0 crs p.merchant_id nonces).1) (sym registered)
        ∙ made in
      let sized =
        create_payment_registration-IsRegistration dim member crs p.merchant_id nonces
          (set_id_bytes p.set_id) reg refl answered in
      (
        response_of reg,
        (
          bind-ok _ is_cred
              ∙ bind-ok _ is_crs
              ∙ bind-ok _ is_set
              ∙ bind-ok _ (ap (map_err registration_error) answered),
          forwarded-reads dim p reg name origin crs set shop reg.pseudonym small
              (subst (λ n. IsRegistration dim (set_id_bytes p.set_id) p.merchant_id n reg)
                (sym sized.with_name) sized)
              is_crs is_set is_shop (ap (λ t. t.1) received),
        ),
      )
