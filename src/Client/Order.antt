-- ===== src/Client/Order.antt =====
-- `MerchantState::build_crs` of client.rs against `Registry::setup` of core/registry.rs.
use veiled.Prelude.{
  ℕ, suc, ◌<◌, ◌≡◌, ◌≢◌, refl, sym, ap, ◌∙◌, subst, arith, List, [], ◌∷◌, map, leb, if◌then◌else◌,
  true,
}
use mathlib.Core.List.{Permᴰ}
use mathlib.Core.List.Permᴰ.{nil, cons, swap, trans}
use veiled.Crypto.{Crypto}
use veiled.Merchant.{Merchant}
use veiled.Crs.{setup as crs_setup}
use veiled.Registry.{Registry, setup}
use veiled.Registry.Lifecycle.{NumberedFrom, IsWellFormed}
use veiled.Client.{MerchantState, insert_state, sort_states, build_crs}

module _ ⦃c : Crypto⦄ where
  abbrev id_of : MerchantState → ℕ
  id_of s = s.merchant.merchant_id

  -- No state has the number.
  abbrev Apart : ℕ → List MerchantState → Type 0
  Apart i [] = Unit
  Apart i (s ∷ ss) = (id_of s ≢ i) × Apart i ss

  abbrev DistinctIds : List MerchantState → Type 0
  DistinctIds [] = Unit
  DistinctIds (s ∷ ss) = Apart (id_of s) ss × DistinctIds ss

  Apart-perm : (i : ℕ) (xs ys : List MerchantState) → Permᴰ xs ys → Apart i xs → Apart i ys
  Apart-perm i _ _ nil h = h
  Apart-perm i _ _ (cons e p) (h, hs) = (subst (λ s. id_of s ≢ i) e h, Apart-perm i _ _ p hs)
  Apart-perm i _ _ (swap e f) (h, (k, hs)) =
      (subst (λ s. id_of s ≢ i) f k, (subst (λ s. id_of s ≢ i) e h, hs))
  Apart-perm i _ _ (trans p q) h = Apart-perm i _ _ q (Apart-perm i _ _ p h)

  DistinctIds-perm : (xs ys : List MerchantState) → Permᴰ xs ys → DistinctIds xs → DistinctIds ys
  DistinctIds-perm _ _ nil h = h
  DistinctIds-perm _ _ (cons {l₂ = ys} e p) (h, hs) =
      (subst (λ s. Apart (id_of s) ys) e (Apart-perm _ _ _ p h), DistinctIds-perm _ _ p hs)
  DistinctIds-perm _ _ (swap {l = l} e f) ((h, hs), (k, ks)) =
      subst DistinctIds (λ i. f i ∷ e i ∷ l) ((λ q. h (sym q), k), (hs, ks))
  DistinctIds-perm _ _ (trans p q) h = DistinctIds-perm _ _ q (DistinctIds-perm _ _ p h)

  insert_state_comm :
      (x y : MerchantState) (l : List MerchantState)
      → id_of y ≢ id_of x
      → insert_state x (insert_state y l) ≡ insert_state y (insert_state x l)
  unfolding insert_state
  insert_state_comm x y [] h = ground arith
  insert_state_comm x y (z ∷ l) h = ground (arith, insert_state_comm x y l h)

  sort_states-perm :
      (xs ys : List MerchantState) → Permᴰ xs ys → DistinctIds xs → sort_states xs ≡ sort_states ys
  unfolding sort_states
  sort_states-perm _ _ nil h = refl
  sort_states-perm _ _ (cons e p) (_, h) = λ i. insert_state (e i) (sort_states-perm _ _ p h i)
  sort_states-perm _ _ (swap {a = a} {b = b} {l = l} e f) ((h, _), _) =
      insert_state_comm a b (sort_states l) h ∙ λ i.
      insert_state (f i) (insert_state (e i) (sort_states l))
  sort_states-perm _ _ (trans p q) h =
      sort_states-perm _ _ p h ∙ sort_states-perm _ _ q (DistinctIds-perm _ _ p h)

  abbrev merchants_of : List MerchantState → List Merchant
  merchants_of = map (λ s. s.merchant)

  numbered-Apart :
      (j i : ℕ) (ss : List MerchantState) → j < i → NumberedFrom i (merchants_of ss) → Apart j ss
  numbered-Apart j i [] lt h = tt
  numbered-Apart j i (s ∷ ss) lt (e, h) =
      (λ q. absurd (omega arith), numbered-Apart j (suc i) ss (omega arith) h)

  numbered-DistinctIds :
      (i : ℕ) (ss : List MerchantState) → NumberedFrom i (merchants_of ss) → DistinctIds ss
  numbered-DistinctIds i [] h = tt
  numbered-DistinctIds i (s ∷ ss) (e, h) =
      (numbered-Apart (id_of s) (suc i) ss (omega arith) h, numbered-DistinctIds (suc i) ss h)

  sort_states-numbered :
      (i : ℕ) (ss : List MerchantState) → NumberedFrom i (merchants_of ss) → sort_states ss ≡ ss
  unfolding sort_states insert_state
  sort_states-numbered i [] h = refl
  sort_states-numbered i (s ∷ []) h = refl
  sort_states-numbered i (s ∷ t ∷ ss) (e, (f, h)) =
      let first : leb (id_of s) (id_of t) ≡ true = ground arith in
      ap (insert_state s) (sort_states-numbered (suc i) (t ∷ ss) (f, h))
      ∙ ap (λ b. if b then s ∷ t ∷ ss else t ∷ insert_state s ss) first

  -- If the states of the merchants of a well-formed registry are listed in any order, the CRS that is
  -- built from them is the one that the registry sets up.
  pub build_crs-setup :
      (reg : Registry) (states ordered : List MerchantState)
      → IsWellFormed reg
      → merchants_of ordered ≡ reg.merchants
      → Permᴰ ordered states
      → build_crs states reg.set_size ≡ (setup reg).crs
  unfolding build_crs setup
  build_crs-setup reg states ordered well e p =
      let numbered = subst (NumberedFrom 1) (sym e) well.numbered in
      ap (λ ss. crs_setup (merchants_of ss) reg.set_size)
        (sym (sort_states-perm ordered states p (numbered-DistinctIds 1 ordered numbered))
          ∙ sort_states-numbered 1 ordered numbered)
      ∙ ap (λ ms. crs_setup ms reg.set_size) e
