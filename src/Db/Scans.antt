-- ===== src/Db/Scans.antt =====
-- Rows that registry/db.rs reads in an order that SQLite leaves open: what does not depend on it.
use veiled.Prelude.{
  suc, ◌≡◌, refl, sym, ap, ◌∙◌, subst, false, Bool-cases, ◌||◌, inl, inr, List, [], ◌∷◌, map,
  length, Option, some, none, Eq, ◌===◌, contains, Distinct, All, arith, if◌then◌else◌, Outcome, ok,
  collect, bind-ok, bind_inverts, ok_injective,
}
use mathlib.Core.List.{Permᴰ}
use mathlib.Core.List.Permᴰ as Permᴰ
use mathlib.Core.List.Permᴰ.{nil, cons, swap, trans}

module _ {ℓ} {A : Type ℓ} where
  pub All-perm {κ} : (P : A → Type κ) (xs ys : List A) → Permᴰ xs ys → All P xs → All P ys
  All-perm P _ _ nil h = h
  All-perm P _ _ (cons e p) (h, hs) = (subst P e h, All-perm P _ _ p hs)
  All-perm P _ _ (swap e f) (h, (k, hs)) = (subst P f k, (subst P e h, hs))
  All-perm P _ _ (trans p q) h = All-perm P _ _ q (All-perm P _ _ p h)

  pub length-perm : (xs ys : List A) → Permᴰ xs ys → length xs ≡ length ys
  length-perm _ _ nil = refl
  length-perm _ _ (cons e p) = ap suc (length-perm _ _ p)
  length-perm _ _ (swap e f) = refl
  length-perm _ _ (trans p q) = length-perm _ _ p ∙ length-perm _ _ q

  pub map-perm {κ} :
      {B : Type κ} (f : A → B) (xs ys : List A) → Permᴰ xs ys → Permᴰ (map f xs) (map f ys)
  map-perm f _ _ nil = nil
  map-perm f _ _ (cons e p) = cons (ap f e) (map-perm f _ _ p)
  map-perm f _ _ (swap e g) = swap (ap f e) (ap f g)
  map-perm f _ _ (trans p q) = trans (map-perm f _ _ p) (map-perm f _ _ q)

  -- Rows in another order are read as the same values in another order.
  pub collect-perm {κ μ} :
      {E : Type κ} {B : Type μ} (f : A → Outcome E B) (xs ys : List A) (bs : List B)
      → Permᴰ xs ys
      → collect f xs ≡ ok bs
      → (cs : List B) × ((collect f ys ≡ ok cs) × Permᴰ bs cs)
  collect-perm f _ _ bs nil h = (bs, (h, Permᴰ.refl bs))
  collect-perm f (x ∷ xs) (y ∷ ys) bs (cons e p) h =
      let (b, (e1, h1)) = bind_inverts (f x) _ h in
      let (bs', (e2, h2)) = bind_inverts (collect f xs) _ h1 in
      let (cs, (e3, q)) = collect-perm f xs ys bs' p e2 in
      (
        b ∷ cs,
        (
          bind-ok _ (ap f (sym e) ∙ e1) ∙ bind-ok _ e3,
          subst (λ t. Permᴰ t (b ∷ cs)) (ok_injective h2) (cons refl q),
        ),
      )
  collect-perm f _ _ bs (swap {a = x} {b = y} {l = l} e g) h =
      let (b, (e1, h1)) = bind_inverts (f x) _ h in
      let (bs', (e2, h2)) = bind_inverts (collect f (y ∷ l)) _ h1 in
      let (b', (e3, h3)) = bind_inverts (f y) _ e2 in
      let (bs'', (e4, h4)) = bind_inverts (collect f l) _ h3 in
      let whole = ap (◌∷◌ b) (ok_injective h4) ∙ ok_injective h2 in
      (
        b' ∷ (b ∷ bs''),
        (
          bind-ok _ (ap f (sym g) ∙ e3) ∙ bind-ok _ (bind-ok _ (ap f (sym e) ∙ e1) ∙ bind-ok _ e4),
          subst (λ t. Permᴰ t (b' ∷ (b ∷ bs''))) whole (swap refl refl),
        ),
      )
  collect-perm f _ _ bs (trans p q) h =
      let (cs, (e1, p')) = collect-perm f _ _ bs p h in
      let (ds, (e2, q')) = collect-perm f _ _ cs q e1 in (ds, (e2, trans p' q'))

module _ {ℓ κ} {K : Type ℓ} {R : Type κ} ⦃e : Eq K⦄ (key : R → K) where
  -- The row with a key.
  abbrev pub find_row : List R → K → Option R
  find_row [] k = none
  find_row (row ∷ rows) k = let rest = find_row rows k in if key row === k then some row else rest

  contains-perm :
      (xs ys : List R) (k : K) → Permᴰ xs ys → contains (map key xs) k ≡ contains (map key ys) k
  contains-perm _ _ k nil = refl
  contains-perm _ _ k (cons {b = b} {l₁ = xs} {l₂ = ys} h p) =
      ap (λ r. (key r === k) || contains (map key xs) k) h
      ∙ ap (λ c. (key b === k) || c) (contains-perm xs ys k p)
  contains-perm _ _ k (swap {a = a} {b = b} {l = l} h g) =
      let swapped : contains (map key (a ∷ (b ∷ l))) k ≡ contains (map key (b ∷ (a ∷ l))) k =
        ground arith in
      swapped ∙ λ i. contains (map key (g i ∷ (h i ∷ l))) k
  contains-perm _ _ k (trans p q) = contains-perm _ _ k p ∙ contains-perm _ _ k q

  Distinct-perm : (xs ys : List R) → Permᴰ xs ys → Distinct (map key xs) → Distinct (map key ys)
  Distinct-perm _ _ nil d = d
  Distinct-perm _ _ (cons {l₁ = xs} {l₂ = ys} h p) (n, d) = (
    subst (λ r. contains (map key ys) (key r) ≡ false) h (sym (contains-perm xs ys _ p) ∙ n),
    Distinct-perm xs ys p d,
  )
  Distinct-perm _ _ (swap {a = a} {b = b} {l = l} h g) (n, (m, d)) =
      let swapped : Distinct (map key (b ∷ (a ∷ l))) = (
        ground (arith, n, m, e.beq_iff (key a) (key b), e.beq_iff (key b) (key a)),
        (ground (arith, n), d),
      ) in
      subst Distinct (λ i. map key (g i ∷ (h i ∷ l))) swapped
  Distinct-perm _ _ (trans p q) d = Distinct-perm _ _ q (Distinct-perm _ _ p d)

  find_row-swap :
      (a b : R) (l : List R) (k : K)
      → contains (map key (b ∷ l)) (key a) ≡ false
      → find_row (a ∷ (b ∷ l)) k ≡ find_row (b ∷ (a ∷ l)) k
  find_row-swap a b l k n = elim (Bool-cases (key a === k)) [
    | inr s ↦ rw s refl
    | inl s ↦ elim (Bool-cases (key b === k)) [
      | inr t ↦ rw (s, t) refl
      | inl t ↦
          let same : key b ≡ key a = (e.beq_iff _ _).0 t ∙ sym ((e.beq_iff _ _).0 s) in
          let u = (e.beq_iff (key b) (key a)).1 same in absurd (ground (arith, n, u))
    ]
  ]

  -- With distinct keys, the row of a key does not depend on the order.
  pub find_row-perm :
      (xs ys : List R) (k : K) → Permᴰ xs ys → Distinct (map key xs) → find_row xs k ≡ find_row ys k
  find_row-perm _ _ k nil d = refl
  find_row-perm _ _ k (cons {l₁ = xs} {l₂ = ys} h p) (n, d) = λ i.
      let r = h i in let rest = find_row-perm xs ys k p d i in if key r === k then some r else rest
  find_row-perm _ _ k (swap {a = a} {b = b} {l = l} h g) (n, d) =
      find_row-swap a b l k n ∙ λ i. find_row (g i ∷ (h i ∷ l)) k
  find_row-perm _ _ k (trans p q) d =
      find_row-perm _ _ k p d ∙ find_row-perm _ _ k q (Distinct-perm _ _ p d)
