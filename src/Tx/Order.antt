-- ===== src/Tx/Order.antt =====
-- The sorting of the keys in `aggregate_keys` of core/tx.rs.
use veiled.Prelude.{◌≡◌, refl, ap, ◌∙◌, arith, true, List, [], ◌∷◌, Bytes, ◌||◌, flatten, expect}
use mathlib.Core.List.{Permᴰ, Perm}
use mathlib.Core.List.Permᴰ.{nil, cons, swap, trans}
use mathlib.Core.Logic.{∥∥₁_elim}
use veiled.Crypto.{Crypto}
use veiled.Bitcoin.{TxBitcoin}
use veiled.Tx.{bytes_le, insert_key, sort_keys, aggregate_keys}

bytes_le_total : (xs ys : Bytes) → (bytes_le xs ys || bytes_le ys xs) ≡ true
unfolding bytes_le
bytes_le_total [] ys = refl
bytes_le_total (x ∷ xs) [] = refl
bytes_le_total (x ∷ xs) (y ∷ ys) = ground (arith, bytes_le_total xs ys)

bytes_le_antisym : (xs ys : Bytes) → bytes_le xs ys ≡ true → bytes_le ys xs ≡ true → xs ≡ ys
unfolding bytes_le
bytes_le_antisym [] [] h k = refl
bytes_le_antisym [] (y ∷ ys) h k = absurd (ground arith)
bytes_le_antisym (x ∷ xs) [] h k = absurd (ground arith)
bytes_le_antisym (x ∷ xs) (y ∷ ys) h k =
    let e : x ≡ y = ground arith in
    let hs : bytes_le xs ys ≡ true = ground arith in
    let ks : bytes_le ys xs ≡ true = ground arith in λ i. e i ∷ bytes_le_antisym xs ys hs ks i

bytes_le_trans :
    (xs ys zs : Bytes) → bytes_le xs ys ≡ true → bytes_le ys zs ≡ true → bytes_le xs zs ≡ true
unfolding bytes_le
bytes_le_trans [] ys zs h k = refl
bytes_le_trans (x ∷ xs) [] zs h k = absurd (ground arith)
bytes_le_trans (x ∷ xs) (y ∷ ys) [] h k = absurd (ground arith)
bytes_le_trans (x ∷ xs) (y ∷ ys) (z ∷ zs) h k = ground (arith, bytes_le_trans xs ys zs)

-- The order in which two keys are inserted does not matter.
insert_key_comm :
    (x y : Bytes) (l : List Bytes) → insert_key x (insert_key y l) ≡ insert_key y (insert_key x l)
unfolding insert_key
insert_key_comm x y [] = ground (arith, bytes_le_total x y, bytes_le_antisym x y)
insert_key_comm x y (z ∷ l) = ground (
  arith,
  insert_key_comm x y l,
  bytes_le_total x y,
  bytes_le_antisym x y,
  bytes_le_trans x y z,
  bytes_le_trans y x z,
)

sort_keys-perm : (xs ys : List Bytes) → Permᴰ xs ys → sort_keys xs ≡ sort_keys ys
unfolding sort_keys
sort_keys-perm _ _ nil = refl
sort_keys-perm _ _ (cons e p) = λ i. insert_key (e i) (sort_keys-perm _ _ p i)
sort_keys-perm _ _ (swap {a = a} {b = b} {l = l} e f) =
    insert_key_comm a b (sort_keys l) ∙ λ i. insert_key (f i) (insert_key (e i) (sort_keys l))
sort_keys-perm _ _ (trans p q) = sort_keys-perm _ _ p ∙ sort_keys-perm _ _ q

keys-IsSet : IsSet (List Bytes)
keys-IsSet = hlevel

-- The aggregate key does not depend on the order of the keys.
pub aggregate_keys-perm {κ} :
    ⦃c : Crypto⦄ ⦃t : TxBitcoin⦄ {E : Type κ} (xs ys : List Bytes)
    → Perm xs ys
    → aggregate_keys {E = E} xs ≡ aggregate_keys ys
unfolding aggregate_keys
aggregate_keys-perm ⦃c⦄ ⦃t⦄ xs ys p =
    ap (λ ks. expect (t.x_only_of_secret (c.sha256 (flatten ks))))
      (∥∥₁_elim p (keys-IsSet _ _) (sort_keys-perm xs ys))
