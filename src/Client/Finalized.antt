-- ===== src/Client/Finalized.antt =====
-- What the functions of client.rs read from the service of registry/service.rs after a finalization.
use veiled.Prelude.{
  ℕ, zero, suc, ◌-◌, ◌^◌, ◌<◌, ◌≡◌, refl, ap, ◌∙◌, arith, List, [], ◌∷◌, length, replicate, All,
  All-append, Option, none, some, Bytes, Outcome, ok, ok_or, map_err, bind-ok, guard_passes,
}
use veiled.Crypto.{Crypto}
use veiled.Bitcoin.{Bitcoin}
use veiled.Types.{Commitment}
use veiled.Crs.RoundTrip.{AllReadable}
use veiled.Flow.{published, published-reads}
use veiled.Service.Handlers
use veiled.Service.Handlers.{
  Config, ServiceState, Status, GetAnonymitySetResponse, last_commitment, pad_set,
  finalization_message,
}
use veiled.Service.Finalize.{finalize_set-serves, finalize_set-message}
use veiled.Client.Requests.{
  RegClient, refused, internal, data_loss, commitment_at, commitments_from, wait_for_finalization,
  get_crs,
}

abbrev pub answer {ℓ} : {A : Type ℓ} → Outcome Status A → Option A
answer (ok a) = some a
answer (Outcome.err e) = none
answer Outcome.panic = none

abbrev pub IsWide : Commitment → Type 0
IsWide c = length c ≡ 33

-- Commitments of 33 bytes are read as they are.
commitments_from-wide :
    (i : ℕ) (set : List Bytes) → All IsWide set → commitments_from i set ≡ ok set
unfolding commitments_from commitment_at
commitments_from-wide i [] h = refl
commitments_from-wide i (x ∷ xs) (e, h) =
    let first : commitment_at i x ≡ ok x = guard_passes (data_loss i) _ (ground arith) in
    bind-ok _ first ∙ bind-ok _ (commitments_from-wide (suc i) xs h)

last-IsWide :
    (x : Commitment) (xs : List Commitment) → All IsWide (x ∷ xs) → IsWide (last_commitment x xs)
last-IsWide x [] h = h.0
last-IsWide x (y ∷ ys) h = last-IsWide y ys h.1

replicate-IsWide : (n : ℕ) (x : Commitment) → IsWide x → All IsWide (replicate n x)
replicate-IsWide zero x h = tt
replicate-IsWide (suc n) x h = (h, replicate-IsWide n x h)

pad_set-IsWide : (n : ℕ) (set : List Commitment) → All IsWide set → All IsWide (pad_set n set)
unfolding pad_set
pad_set-IsWide n [] h = tt
pad_set-IsWide n (x ∷ xs) h =
    All-append IsWide (x ∷ xs) (replicate (n - length (x ∷ xs)) (last_commitment x xs)) h
      (replicate-IsWide (n - length (x ∷ xs)) (last_commitment x xs) (last-IsWide x xs h))

module _ ⦃c : Crypto⦄ where
  -- The stub answers what the service does in a state; the message of a set that is stored arrives.
  pub record Serves (client : RegClient) (dim : ℕ) (state : ServiceState) : Type 0 where
    pub crs : (set_id : Bytes) → client.get_crs set_id ≡ answer (Handlers.get_crs state set_id)
    pub set :
        (set_id : Bytes) (response : GetAnonymitySetResponse)
        → length set_id ≡ 32
        → finalization_message dim state set_id ≡ some response
        → client.subscribe_set_finalization set_id ≡ some (some (some response))

  -- After a set of commitments of 33 bytes was finalized under a transaction id of 32 bytes, with counts
  -- that fit in 32 bits and readable merchants, a client of the service reads under this id the CRS of
  -- all merchants and the padded set.
  pub wait_for_finalization-finalize_set :
      ⦃b : Bitcoin⦄ (client : RegClient) (config : Config) (state : ServiceState) (dim : ℕ)
      (set_id txid : Bytes)
      → (Handlers.finalize_set config state set_id).1 ≡ ok txid
      → length txid ≡ 32
      → state.registry.set_size < 2 ^ 32
      → length state.registry.merchants < 2 ^ 32
      → AllReadable state.registry.merchants
      → All IsWide state.registry.anonymity_set
      → Serves client dim (Handlers.finalize_set config state set_id).0
      → (get_crs client txid ≡ ok (published state))
        × (wait_for_finalization client txid ≡ ok (pad_set (2 ^ dim) state.registry.anonymity_set))
  unfolding get_crs wait_for_finalization
  wait_for_finalization-finalize_set client config state dim set_id txid final wide small few
        readable all_wide serves =
      let (crs, _) = finalize_set-serves config state dim set_id txid final wide in
      let message = finalize_set-message config state dim set_id txid final in
      let set = pad_set (2 ^ dim) state.registry.anonymity_set in
      (
        bind-ok _ (ap (λ o. ok_or o refused) (serves.crs txid ∙ ap answer crs))
            ∙ ap (map_err internal) (published-reads state small few readable),
        bind-ok _ (ap (λ o. ok_or o refused) (serves.set txid _ wide message))
            ∙ commitments_from-wide 0 set
                (pad_set-IsWide (2 ^ dim) state.registry.anonymity_set all_wide),
      )
