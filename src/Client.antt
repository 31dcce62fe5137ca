-- ===== src/Client.antt =====
-- `MerchantState` of client.rs: what a merchant keeps after it registered, and the CRS that the
-- merchants can build without the registry.
pub mod Order
pub mod Requests
pub mod Finalized
use veiled.Prelude.{
  ℕ, leb, List, [], ◌∷◌, map, Option, none, some, Bytes, Outcome, err, if◌then◌else◌,
}
use veiled.Crypto.{Crypto}
use veiled.Types.{Commitment}
use veiled.Proof.{PaymentIdentityRegistration}
use veiled.Merchant.{Merchant}
use veiled.Merchant.Receive
use veiled.Merchant.Receive.{ReceiveError}
use veiled.Crs.{Crs, setup}

pub data ClientError : Type 0 where
  crs_not_attached anonymity_set_not_attached : ClientError
  receive_error : ReceiveError → ClientError

module _ ⦃c : Crypto⦄ where
  pub record MerchantState : Type 0 where
    pub merchant : Merchant
    pub crs : Option Crs
    pub anonymity_set : Option (List Commitment)

  unfoldable pub insert_state : MerchantState → List MerchantState → List MerchantState
  insert_state s [] = s ∷ []
  insert_state s (t ∷ ts) =
      let rest = insert_state s ts in
      if leb s.merchant.merchant_id t.merchant.merchant_id then s ∷ t ∷ ts else t ∷ rest

  -- `sort_by_key(|s| s.merchant.merchant_id)`, which keeps the order of equal keys.
  unfoldable pub sort_states : List MerchantState → List MerchantState
  sort_states [] = []
  sort_states (s ∷ ts) = insert_state s (sort_states ts)

  unfoldable pub build_crs : List MerchantState → ℕ → Crs
  build_crs states set_size = setup (map (λ s. s.merchant) (sort_states states)) set_size

  unfoldable pub attach_set : MerchantState → Crs → List Commitment → MerchantState
  attach_set state crs anonymity_set = record state {
    crs = some crs;
    anonymity_set = some anonymity_set;
  }

  -- The next state and the result of the merchant, in its state.
  unfoldable pub with_merchant :
      MerchantState
      → Merchant × Outcome ReceiveError Bytes
      → MerchantState × Outcome ClientError Bytes
  with_merchant state (merchant, Outcome.ok p) =
      (record state { merchant = merchant }, Outcome.ok p)
  with_merchant state (merchant, Outcome.err e) =
      (record state { merchant = merchant }, Outcome.err (receive_error e))
  with_merchant state (merchant, Outcome.panic) =
      (record state { merchant = merchant }, Outcome.panic)

  unfoldable pub receive_payment_registration :
      ℕ → MerchantState → PaymentIdentityRegistration → MerchantState × Outcome ClientError Bytes
  receive_payment_registration dim state registration = elim state.crs [
    | none ↦ (state, err crs_not_attached)
    | some crs ↦ elim state.anonymity_set [
      | none ↦ (state, err anonymity_set_not_attached)
      | some anonymity_set ↦
          with_merchant state
            (Receive.receive_payment_registration dim state.merchant crs anonymity_set registration)
    ]
  ]
