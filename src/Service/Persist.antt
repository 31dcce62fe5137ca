-- ===== src/Service/Persist.antt =====
-- The registrations of registry/store.rs, and the table that the statements it runs leave.
use veiled.Prelude.{
  subst, ◌++◌, true, ap₂, ℕ, ◌≡◌, refl, sym, ap, ◌∙◌, not, Bool-cases, inl, inr, List, [], ◌∷◌,
  Option, none, some, Bytes, list_eq, nat_eq, ◌===◌, if◌then◌else◌, ok, ok_injective, bind_inverts,
  guard_inverts, outcome_cases,
}
use veiled.Prelude.Map
use veiled.Prelude.Map.{Map, get-insert, contains_key_false}
use veiled.Crypto.{Crypto}
use veiled.Bitcoin.{OutPoint}
use veiled.Merchant
use veiled.Merchant.{Merchant}
use veiled.Types.Name
use veiled.Db
use veiled.Db.{MerchantRow, Connection, merchant_key, open_db, create_tables}
use veiled.Hex.{Hex}
use veiled.Db.Keys.{Write, merchant_saved, write, writes}
use veiled.Db.Scans.{find_row}
use veiled.Db.First.{or_else-none, find_row-insert, or_else}
use veiled.Service.Wallet.{RegistryWallet, verify_payment}
use veiled.Service.Store
use veiled.Service.Store.{
  MerchantInfo, RegistryStore, StoreError, run, merchant_registered, from_wallet, admit,
  add_merchant,
}

-- One call of `add_merchant`.
pub record Call : Type 0 where
  pub name : Bytes
  pub origin : Bytes
  pub email : Bytes
  pub phone : Bytes
  pub outpoint : OutPoint
  pub required_fee : ℕ

-- The row that stands for a merchant of the pool.
abbrev pub row_of : Bytes → MerchantInfo → MerchantRow
row_of name info = record {
  name = name;
  origin = info.merchant.origin;
  email = info.email;
  phone = info.phone;
}

abbrev pub row_from : Bytes → Option MerchantInfo → Option MerchantRow
row_from name none = none
row_from name (some info) = some (row_of name info)

abbrev pub pool_row : Map Bytes MerchantInfo → Bytes → Option MerchantRow
pool_row pool name = row_from name (Map.get pool name)

-- A database whose statements succeed, after some of them.
abbrev pub after : List Write → Store.Db
after ws = record { succeeds = λ w. true; statements = ws }

writes-snoc :
    ⦃x : Hex⦄ (conn : Connection) (ws : List Write) (w : Write)
    → writes conn (ws ++ w ∷ []) ≡ write (writes conn ws) w
writes-snoc conn [] w = refl
writes-snoc conn (v ∷ ws) w = writes-snoc (write conn v) ws w

module _ ⦃c : Crypto⦄ where
  abbrev pub call : RegistryStore → Call → RegistryStore
  call store a = (add_merchant store a.name a.origin a.email a.phone a.outpoint a.required_fee).0

  abbrev pub calls : RegistryStore → List Call → RegistryStore
  calls store [] = store
  calls store (a ∷ rest) = calls (call store a) rest

  -- The tables after the statements that the store has run in a new database.
  abbrev pub tables : ⦃x : Hex⦄ → Option Store.Db → Connection
  tables none = open_db none
  tables (some db) = writes (open_db none) db.statements

  -- The database runs, and its table of the merchants holds the pool.
  record Mirrors ⦃x : Hex⦄ (store : RegistryStore) : Type 0 where
    ran : List Write
    connected : store.db ≡ some (after ran)
    same :
        (n : Bytes)
        → find_row merchant_key (writes (open_db none) ran).merchants n
          ≡ pool_row store.merchant_pool n

  admitted :
      (store : RegistryStore) (a : Call) (m : Merchant)
      → admit store a.name a.origin a.outpoint a.required_fee ≡ ok m
      → (Map.get store.merchant_pool a.name ≡ none) × (m.origin ≡ a.origin)
  unfolding admit Merchant.new
  admitted store a m e =
      let (free, e1) =
        guard_inverts (not (Map.contains_key store.merchant_pool a.name)) merchant_registered _ e in
      let (_, (_, e2)) =
        bind_inverts (from_wallet (verify_payment store.wallet a.outpoint a.required_fee)) _ e1 in
      let (_, (_, e3)) = bind_inverts (Name.new a.name) _ e2 in
      (
        contains_key_false store.merchant_pool a.name free,
        sym (ap (λ t. t.origin) (ok_injective e3)),
      )

  -- A merchant that is admitted, in the table and in the pool.
  admit-Mirrors :
      (store : RegistryStore) (conn : Connection) (a : Call) (m : Merchant) (n : Bytes)
      → admit store a.name a.origin a.outpoint a.required_fee ≡ ok m
      → ((k : Bytes) → find_row merchant_key conn.merchants k ≡ pool_row store.merchant_pool k)
      → find_row merchant_key (Db.save_merchant conn a.name a.origin a.email a.phone).merchants n
        ≡ pool_row
            (Map.insert store.merchant_pool a.name
              (record { merchant = m; email = a.email; phone = a.phone }))
            n
  unfolding Db.save_merchant
  admit-Mirrors store conn a m n e h =
      let (free, same) = admitted store a m e in
      let info : MerchantInfo = record { merchant = m; email = a.email; phone = a.phone } in
      let row : MerchantRow = record {
        name = a.name;
        origin = a.origin;
        email = a.email;
        phone = a.phone;
      } in
      find_row-insert merchant_key conn.merchants row n
      ∙ ap (λ o. or_else o (if a.name === n then some row else none)) (h n)
      ∙ elim (Bool-cases (a.name === n)) [
        | inl t ↦
            let q : a.name ≡ n = ((list_eq {A = ℕ}).beq_iff a.name n).0 t in
            let absent : Map.get store.merchant_pool n ≡ none =
              ap (Map.get store.merchant_pool) (sym q) ∙ free in
            rw (get-insert, t, absent)
              (ap₂
                (λ name origin.
                  some (record { name = name; origin = origin; email = a.email; phone = a.phone }))
                q (sym same))
        | inr t ↦ rw (get-insert, t) (or_else-none (pool_row store.merchant_pool n))
      ]

  call-Mirrors :
      ⦃x : Hex⦄ (store : RegistryStore) (a : Call) → Mirrors store → Mirrors (call store a)
  unfolding add_merchant
  call-Mirrors store a h =
      elim (outcome_cases (admit store a.name a.origin a.outpoint a.required_fee)) [
        | inl (m, e) ↦
            let w = merchant_saved a.name a.origin a.email a.phone in
            let info : MerchantInfo = record { merchant = m; email = a.email; phone = a.phone } in
            let next : RegistryStore = record store {
              merchant_pool = Map.insert store.merchant_pool a.name info;
              db = (run store.db w).0;
            } in
            let made : call store a ≡ next = rw (call, add_merchant, e) refl in
            subst Mirrors (sym made) (record {
              ran = h.ran ++ w ∷ [];
              connected = ap (λ db. (run db w).0) h.connected;
              same = λ n.
                  ap (λ conn. find_row merchant_key conn.merchants n)
                    (writes-snoc (open_db none) h.ran w)
                  ∙ admit-Mirrors store (writes (open_db none) h.ran) a m n e h.same;
            })
        | inr (inl (_, e)) ↦ rw (call, add_merchant, e) h
        | inr (inr e) ↦ rw (call, add_merchant, e) h
      ]

  all_calls-Mirrors :
      ⦃x : Hex⦄ (store : RegistryStore) (list : List Call)
      → Mirrors store
      → Mirrors (calls store list)
  all_calls-Mirrors store [] h = h
  all_calls-Mirrors store (a ∷ rest) h =
      all_calls-Mirrors (call store a) rest (call-Mirrors store a h)

  -- Whatever the calls of add_merchant, admitted or refused, on a new store with a new database whose
  -- statements succeed: for every name, the table of the merchants has, after the statements that the
  -- calls have run, the row of the merchant that the pool holds under it, with its origin, email and
  -- phone, and no row when the pool holds none.
  pub calls-Mirrors :
      ⦃x : Hex⦄ (wallet : RegistryWallet) (list : List Call) (n : Bytes)
      → find_row merchant_key
          (tables (calls (Store.new wallet (some (after []))) list).db).merchants
          n
        ≡ pool_row (calls (Store.new wallet (some (after []))) list).merchant_pool n
  unfolding Store.new open_db create_tables
  calls-Mirrors wallet list n =
      let start : Mirrors (Store.new wallet (some (after []))) = record {
        ran = [];
        connected = refl;
        same = λ k. refl;
      } in
      let h = all_calls-Mirrors (Store.new wallet (some (after []))) list start in
      ap (λ db. find_row merchant_key (tables db).merchants n) h.connected ∙ h.same n
