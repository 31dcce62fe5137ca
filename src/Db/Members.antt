-- ===== src/Db/Members.antt =====
-- The table set_merchants of registry/db.rs: its rows in the order of their positions, and the loop
-- of `save_set`.
use veiled.Prelude.{
  ◌↔◌, leb, beq_refl, ℕ, suc, ◌+◌, ◌<◌, ◌≤◌, ◌^◌, ◌%◌, ◌≡◌, refl, sym, ap, ◌∙◌, true, false,
  Bool-cases, inl, inr, List, [], ◌∷◌, ◌++◌, map, length, Bytes, list_eq, nat_eq, pair_eq, ◌===◌,
  contains, All, All-append, All-weaken, arith, ok, append_assoc, append-nil,
}
use veiled.Db.{
  SetMerchantRecord, Connection, set_merchant_key, merchant_names, set_ids, save_set_merchants,
}
use veiled.Db.Read.{insert_ordered, order_by, members_of, position_leb}

-- The rows of a set's merchants, from a position on.
pub entries : Bytes → ℕ → List Bytes → List SetMerchantRecord
entries id pos [] = []
entries id pos (name ∷ names) =
    record { set_id = id; position = pos; merchant_name = name } ∷ entries id (suc pos) names

-- A row of another set, or of an earlier position.
abbrev pub IsEarlier : Bytes → ℕ → SetMerchantRecord → Type 0
IsEarlier id pos row = row.set_id ≡ id → row.position < pos

pub earlier_fresh :
    (id : Bytes) (pos : ℕ) (rows : List SetMerchantRecord)
    → All (IsEarlier id pos) rows
    → contains (map set_merchant_key rows) (id, pos) ≡ false
earlier_fresh id pos [] h = refl
earlier_fresh id pos (row ∷ rows) (p, h) = elim (Bool-cases (set_merchant_key row === (id, pos))) [
  | inl t ↦
      let same = (pair_eq {A = Bytes} {B = ℕ}).beq_iff (set_merchant_key row) (id, pos) in
      let e = same.0 t in
      let l = p (ap (λ k. k.0) e) in
      let q : row.position ≡ pos = ap (λ k. k.1) e in absurd (omega arith)
  | inr t ↦ rw t (earlier_fresh id pos rows h)
]

pub map-entries :
    (id : Bytes) (pos : ℕ) (names : List Bytes)
    → map (λ (r : SetMerchantRecord). r.merchant_name) (entries id pos names) ≡ names
unfolding entries
map-entries id pos [] = refl
map-entries id pos (name ∷ names) = ap (◌∷◌ name) (map-entries id (suc pos) names)

-- Positions that count up are in order.
pub order_by-entries :
    (id : Bytes) (pos : ℕ) (names : List Bytes)
    → pos + length names ≤ 2 ^ 63
    → order_by position_leb (entries id pos names) ≡ entries id pos names
unfolding entries order_by insert_ordered
order_by-entries id pos [] h = refl
order_by-entries id pos (a ∷ []) h = refl
order_by-entries id pos (a ∷ (b ∷ names)) h =
    let e = order_by-entries id (suc pos) (b ∷ names) (omega arith) in
    let l : leb ((pos + 2 ^ 63) % 2 ^ 64) ((suc pos + 2 ^ 63) % 2 ^ 64) ≡ true = ground arith in
    ap (insert_ordered position_leb _) e ∙ rw l refl

pub members_of-append :
    (id : Bytes) (rows more : List SetMerchantRecord)
    → members_of id (rows ++ more) ≡ members_of id rows ++ members_of id more
unfolding members_of
members_of-append id [] more = refl
members_of-append id (row ∷ rows) more = elim (Bool-cases (row.set_id === id)) [
  | inl t ↦ rw t (ap (◌∷◌ row) (members_of-append id rows more))
  | inr t ↦ rw t (members_of-append id rows more)
]

pub members_of-entries :
    (id : Bytes) (pos : ℕ) (names : List Bytes)
    → members_of id (entries id pos names) ≡ entries id pos names
unfolding members_of entries
members_of-entries id pos [] = refl
members_of-entries id pos (name ∷ names) =
    let t = beq_refl id in
    rw t (
      ap (◌∷◌ (record { set_id = id; position = pos; merchant_name = name }))
        (members_of-entries id (suc pos) names))

pub members_of-other :
    (id other : Bytes) (pos : ℕ) (names : List Bytes)
    → (id === other) ≡ false
    → members_of other (entries id pos names) ≡ []
unfolding members_of entries
members_of-other id other pos [] h = refl
members_of-other id other pos (name ∷ names) h = rw h (members_of-other id other (suc pos) names h)

pub members_of-none :
    (id : Bytes) (rows : List SetMerchantRecord)
    → All (λ (r : SetMerchantRecord). (r.set_id === id) ≡ false) rows
    → members_of id rows ≡ []
unfolding members_of
members_of-none id [] h = refl
members_of-none id (row ∷ rows) (t, h) = rw t (members_of-none id rows h)

-- The loop over the names of a set that is there, with merchants that are there.
pub save_set_merchants-entries :
    (conn : Connection) (id : Bytes) (pos : ℕ) (names : List Bytes)
    → contains (set_ids conn) id ≡ true
    → All (λ (n : Bytes). contains (merchant_names conn) n ≡ true) names
    → All (IsEarlier id pos) conn.set_merchants
    → pos + length names ≤ 2 ^ 63
    → save_set_merchants conn id pos names
      ≡ (record conn { set_merchants = conn.set_merchants ++ entries id pos names }, ok tt)
unfolding save_set_merchants entries
save_set_merchants-entries conn id pos [] known members earlier small =
    ap (λ t. (record conn { set_merchants = t }, ok tt)) (sym (append-nil conn.set_merchants))
save_set_merchants-entries conn id pos (name ∷ names) known (member, members) earlier small =
    let row : SetMerchantRecord = record { set_id = id; position = pos; merchant_name = name } in
    let next : Connection = record conn { set_merchants = conn.set_merchants ++ row ∷ [] } in
    let i : pos % 2 ^ 64 ≡ pos = omega arith in
    let fresh = earlier_fresh id pos conn.set_merchants earlier in
    let rest =
      save_set_merchants-entries next id (suc pos) names known members
        (All-append (IsEarlier id (suc pos)) conn.set_merchants (row ∷ [])
          (All-weaken conn.set_merchants (λ r p e. let l = p e in omega arith) earlier)
          (λ e. omega arith, tt))
        (omega arith) in
    rw (save_set_merchants, i, fresh, known, member) rest
    ∙ ap (λ t. (record conn { set_merchants = t }, ok tt))
        (append_assoc conn.set_merchants (row ∷ []) (entries id (suc pos) names))

pub text_eq : (a b : Bytes) → ((a === b) ≡ true) ↔ (a ≡ b)
text_eq a b = (list_eq {A = ℕ}).beq_iff a b

pub differs :
    (ids : List Bytes) (a b : Bytes)
    → contains ids a ≡ true
    → contains ids b ≡ false
    → (a === b) ≡ false
differs ids a b h i = elim (Bool-cases (a === b)) [
  | inr t ↦ t
  | inl t ↦ let e = ap (λ k. contains ids k) ((text_eq a b).0 t) in absurd cc
]

pub differs_comm : (a b : Bytes) → (a === b) ≡ false → (b === a) ≡ false
differs_comm a b h = elim (Bool-cases (b === a)) [
  | inr t ↦ t
  | inl t ↦ let e = (text_eq a b).1 (sym ((text_eq b a).0 t)) in absurd cc
]
