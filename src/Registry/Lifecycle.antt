-- ===== src/Registry/Lifecycle.antt =====
-- The registry from `new` on: the order of merchants and their numbers, and the CRS that `setup`
-- makes.
use veiled.Prelude.{
  ℕ, suc, ◌+◌, ◌<◌, ◌≡◌, refl, sym, ap, ◌∙◌, arith, List, [], ◌∷◌, ◌++◌, length, length-append,
  length-tabulate_from, Bytes, subst, dec_lt,
}
use veiled.Crypto.{Crypto}
use veiled.Bitcoin.{Bitcoin, OutPoint}
use veiled.Types.{Commitment}
use veiled.Merchant.{Merchant}
use veiled.Crs.{setup as crs_setup, num_merchants}
use veiled.Registry.{Registry, new, add_merchant, setup, add_beneficiary, create_anonymity_set}
use veiled.Registry.Anchor.{create_anonymity_set-commits, create_anonymity_set_empty}

-- Each merchant's number is its position, from 1.
abbrev pub NumberedFrom : ℕ → List Merchant → Type 0
NumberedFrom i [] = Unit
NumberedFrom i (m ∷ ms) = (m.merchant_id ≡ i) × NumberedFrom (suc i) ms

NumberedFrom-snoc :
    (i : ℕ) (ms : List Merchant) (m : Merchant)
    → NumberedFrom i ms
    → m.merchant_id ≡ i + length ms
    → NumberedFrom i (ms ++ m ∷ [])
NumberedFrom-snoc i [] m h e = (e ∙ omega arith, tt)
NumberedFrom-snoc i (x ∷ xs) m (hx, hs) e =
    (hx, NumberedFrom-snoc (suc i) xs m hs (e ∙ omega arith))

module _ ⦃c : Crypto⦄ where
  pub setup-generators :
      (ms : List Merchant) (n : ℕ)
      → length (crs_setup ms n).generators ≡ num_merchants (crs_setup ms n)
  unfolding crs_setup num_merchants
  setup-generators ms n = length-tabulate_from 1 (length ms) _

  -- A registry is well-formed: merchants are numbered in order, every beneficiary has an output, and
  -- the CRS has a generator for each of its merchants.
  pub record IsWellFormed (reg : Registry) : Type 0 where
    pub numbered : NumberedFrom 1 reg.merchants
    pub paired : length reg.beneficiary_outputs ≡ length reg.anonymity_set
    pub generated : length reg.crs.generators ≡ num_merchants reg.crs

  pub new-IsWellFormed :
      (set_size amount : ℕ) (secret_key : Bytes) → IsWellFormed (new set_size amount secret_key)
  unfolding new
  new-IsWellFormed set_size amount secret_key = record {
    numbered = tt;
    paired = refl;
    generated = setup-generators [] set_size;
  }

  pub add_merchant-IsWellFormed :
      (reg : Registry) (m : Merchant) → IsWellFormed reg → IsWellFormed (add_merchant reg m).0
  unfolding add_merchant
  add_merchant-IsWellFormed reg m h = record {
    numbered =
        NumberedFrom-snoc 1 reg.merchants (record m { merchant_id = length reg.merchants + 1 })
          h.numbered (omega arith);
    paired = h.paired;
    generated = h.generated;
  }

  pub setup-IsWellFormed : (reg : Registry) → IsWellFormed reg → IsWellFormed (setup reg)
  unfolding setup
  setup-IsWellFormed reg h = record {
    numbered = h.numbered;
    paired = h.paired;
    generated = setup-generators reg.merchants reg.set_size;
  }

  pub add_beneficiary-IsWellFormed :
      (reg : Registry) (phi : Commitment) (output : OutPoint)
      → IsWellFormed reg
      → IsWellFormed (add_beneficiary reg phi output).0
  unfolding add_beneficiary
  add_beneficiary-IsWellFormed reg phi output h = record {
    numbered = h.numbered;
    paired =
        length-append reg.beneficiary_outputs (output ∷ [])
        ∙ ap (λ n. n + 1) h.paired
        ∙ sym (length-append reg.anonymity_set (phi ∷ []));
    generated = h.generated;
  }

  pub create_anonymity_set-IsWellFormed :
      ⦃b : Bitcoin⦄ (reg : Registry) (funding_outpoint : OutPoint)
      → IsWellFormed reg
      → IsWellFormed (create_anonymity_set reg funding_outpoint).0
  create_anonymity_set-IsWellFormed reg fo h = elim (dec_lt 0 (length reg.anonymity_set)) [
    | yes some_in ↦
        let (root, (_, same)) = create_anonymity_set-commits reg fo some_in in
        subst IsWellFormed (sym (ap (λ t. t.0) same))
          (record { numbered = h.numbered; paired = h.paired; generated = h.generated })
    | no empty ↦
        subst IsWellFormed
          (sym
            (ap (λ t. t.0) (create_anonymity_set_empty reg fo (none_in reg.anonymity_set empty))))
          h
  ]
    where
      none_in : (xs : List Commitment) → ¬ (0 < length xs) → xs ≡ []
      none_in [] e = refl
      none_in (x ∷ xs) e = absurd (e (omega arith))
