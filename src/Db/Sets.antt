-- ===== src/Db/Sets.antt =====
-- The sets of registry/db.rs with their merchants, saved and loaded.
use veiled.Prelude.{
  ◌>>=◌, ap₂, beq_refl, ℕ, ◌<◌, ◌≤◌, ◌^◌, ◌%◌, ◌≡◌, refl, sym, ap, ◌∙◌, subst, true, false,
  Bool-cases, not, ◌==◌, inl, inr, List, [], ◌∷◌, ◌++◌, Option, none, some, map, map-append, length,
  Bytes, list_eq, nat_eq, pair_eq, ◌===◌, contains, contains-append, All, All-weaken, arith,
  if◌then◌else◌, Outcome, ok, collect, bind-ok, bind_inverts, ok_injective, append-nil,
}
use veiled.Hex.{Hex}
use veiled.Db.{
  SetRecord, SetMerchantRecord, Connection, set_key, merchant_names, set_ids, save_set,
  finalize_rows, mark_set_finalized,
}
use veiled.Db.Scans.{collect-perm, map-perm}
use mathlib.Core.List.{Permᴰ}
use mathlib.Core.List.Permᴰ as Permᴰ
use veiled.Db.Read.{
  Scan, SetRow, order_by, members_of, position_leb, read_set_id, read_set, load_sets,
}
use veiled.Db.Members.{
  entries, map-entries, order_by-entries, members_of-append, members_of-entries, members_of-other,
  members_of-none, save_set_merchants-entries, text_eq, differs, differs_comm,
}
use veiled.Db.Keys.{IsSetId, IsDatabase}
use veiled.Db.Load.{read_set_id-encode}

collect-append {κ ℓ μ} :
    {E : Type κ} {A : Type ℓ} {B : Type μ} (f : A → Outcome E B) (xs ys : List A) (bs cs : List B)
    → collect f xs ≡ ok bs
    → collect f ys ≡ ok cs
    → collect f (xs ++ ys) ≡ ok (bs ++ cs)
collect-append f [] ys bs cs h i = subst (λ b. collect f ys ≡ ok (b ++ cs)) (ok_injective h) i
collect-append f (x ∷ xs) ys bs cs h i =
    let (b, (e, h1)) = bind_inverts (f x) _ h in
    let (bs', (es, h2)) = bind_inverts (collect f xs) _ h1 in
    bind-ok _ e
    ∙ bind-ok _ (collect-append f xs ys bs' cs es i)
    ∙ ap (λ t. ok (t ++ cs)) (ok_injective h2)

collect-ext {κ ℓ μ} :
    {E : Type κ} {A : Type ℓ} {B : Type μ} (f g : A → Outcome E B) (xs : List A)
    → All (λ a. f a ≡ g a) xs
    → collect f xs ≡ collect g xs
collect-ext f g [] h = refl
collect-ext f g (x ∷ xs) (e, h) =
    ap₂ (λ m n. m >>= λ y. n >>= λ ys. ok (y ∷ ys)) e (collect-ext f g xs h)

-- A set id that is not among the keys is not that of a row.
others :
    (rows : List SetRecord) (id : Bytes)
    → contains (map set_key rows) id ≡ false
    → All (λ (r : SetRecord). (r.set_id === id) ≡ false) rows
others [] id h = tt
others (row ∷ rows) id h = (ground (arith, h), others rows id (ground (arith, h)))

module _ ⦃x : Hex⦄ where
  -- Reading a set depends on the rows of its own merchants only.
  read_set-members :
      (conn next : Connection) (row : SetRecord)
      → members_of row.set_id next.set_merchants ≡ members_of row.set_id conn.set_merchants
      → read_set next row ≡ read_set conn row
  unfolding read_set
  read_set-members conn next row e = rw e refl

  -- The rows in the order of the table.
  save_set-appends :
      (conn : Connection) (id : Bytes) (capacity sats : ℕ) (names : List Bytes) (rows : List SetRow)
      → IsDatabase conn
      → length id ≡ 32
      → capacity < 2 ^ 64
      → sats < 2 ^ 64
      → length names ≤ 2 ^ 63
      → contains (set_ids conn) (x.encode id) ≡ false
      → All (λ (n : Bytes). contains (merchant_names conn) n ≡ true) names
      → collect (read_set conn) conn.sets ≡ ok rows
      → ((save_set conn id capacity sats names).1 ≡ ok tt)
        × (collect
              (read_set (save_set conn id capacity sats names).0)
              (save_set conn id capacity sats names).0.sets
            ≡ ok (
                rows
                ++ record {
                  set_id = id;
                  beneficiary_capacity = capacity;
                  sats_per_user = sats;
                  finalized = false;
                  merchant_names = names;
                }
                  ∷ []))
  unfolding save_set read_set
  save_set-appends conn id capacity sats names rows h l32 small1 small2 small3 fresh members
        before =
      let text = x.encode id in
      let row : SetRecord = record {
        set_id = text;
        beneficiary_capacity = capacity % 2 ^ 64;
        sats_per_user = sats % 2 ^ 64;
        finalized = 0;
        commitment_txid = none;
      } in
      let grown : Connection = record conn { sets = conn.sets ++ row ∷ [] } in
      let final : Connection = record grown {
        set_merchants = conn.set_merchants ++ entries text 0 names;
      } in
      let known : contains (set_ids grown) text ≡ true =
        ap (λ ks. contains ks text) (map-append set_key conn.sets (row ∷ []))
        ∙ contains-append (set_ids conn) (text ∷ []) text
        ∙ ground (arith, beq_refl text) in
      let distinct : All (λ (r : SetMerchantRecord). (r.set_id === text) ≡ false)
          conn.set_merchants =
        All-weaken conn.set_merchants (λ r (a, b). differs (set_ids conn) r.set_id text a fresh)
          h.set_merchants_refer in
      let saved : save_set conn id capacity sats names ≡ (final, ok tt) =
        rw (save_set, fresh)
          (save_set_merchants-entries grown text 0 names known members
            (All-weaken conn.set_merchants
              (λ r n e. let t = (text_eq r.set_id text).1 e in absurd cc) distinct)
            (omega arith)) in
      let old : collect (read_set final) conn.sets ≡ ok rows =
        collect-ext (read_set final) (read_set conn) conn.sets (
          All-weaken conn.sets
            (λ r n. read_set-members conn final r (
              members_of-append r.set_id conn.set_merchants (entries text 0 names)
              ∙ ap (λ t. members_of r.set_id conn.set_merchants ++ t)
                  (members_of-other text r.set_id 0 names (differs_comm r.set_id text n))
              ∙ append-nil (members_of r.set_id conn.set_merchants)))
            (others conn.sets text fresh))
        ∙ before in
      let listed : map (λ (m : SetMerchantRecord). m.merchant_name)
            (order_by position_leb (members_of text final.set_merchants))
          ≡ names =
        ap (λ t. map (λ (m : SetMerchantRecord). m.merchant_name) (order_by position_leb t))
          (members_of-append text conn.set_merchants (entries text 0 names)
            ∙ ap₂ (λ a b. a ++ b) (members_of-none text conn.set_merchants distinct)
                (members_of-entries text 0 names))
        ∙ ap (map (λ (m : SetMerchantRecord). m.merchant_name))
            (order_by-entries text 0 names (omega arith))
        ∙ map-entries text 0 names in
      let i : capacity % 2 ^ 64 ≡ capacity = omega arith in
      let k : sats % 2 ^ 64 ≡ sats = omega arith in
      let new : collect (read_set final) (row ∷ []) ≡ ok (_ ∷ []) =
        bind-ok _ (bind-ok _ (read_set_id-encode id l32)) ∙ rw (listed, i, k) refl in
      (
        ap (λ t. t.1) saved,
        ap (λ t. collect (read_set t.0) t.0.sets) saved
            ∙ collect-append (read_set final) conn.sets (row ∷ []) rows _ old new,
      )

  -- What is read in the order of a scan is read in the order of the table.
  unscanned :
      ⦃s : Scan⦄ (conn : Connection) (rows : List SetRow)
      → load_sets conn ≡ ok rows
      → (stored : List SetRow) × ((collect (read_set conn) conn.sets ≡ ok stored)
          × Permᴰ rows stored)
  unfolding load_sets
  unscanned ⦃s⦄ conn rows e =
      collect-perm (read_set conn) (s.rows conn.sets) conn.sets rows
        (Permᴰ.symm (s.rows-Perm conn.sets)) e

  -- A new set with registered merchants: save_set succeeds, and load_sets then reads, in some order,
  -- the sets that it read before and one more, which has the id, the capacity, the fee and the merchant
  -- names that were given, the names in their order, and is not finalized. The capacity and the fee are
  -- of 64 bits, and there are at most 2^63 names.
  pub load_sets-save_set :
      ⦃s : Scan⦄ (conn : Connection) (id : Bytes) (capacity sats : ℕ) (names : List Bytes)
      (rows : List SetRow)
      → IsDatabase conn
      → length id ≡ 32
      → capacity < 2 ^ 64
      → sats < 2 ^ 64
      → length names ≤ 2 ^ 63
      → contains (set_ids conn) (x.encode id) ≡ false
      → All (λ (n : Bytes). contains (merchant_names conn) n ≡ true) names
      → load_sets conn ≡ ok rows
      → ((save_set conn id capacity sats names).1 ≡ ok tt)
        × ((next : List SetRow) × ((load_sets (save_set conn id capacity sats names).0 ≡ ok next)
              × Permᴰ
                  (rows
                    ++ record {
                      set_id = id;
                      beneficiary_capacity = capacity;
                      sats_per_user = sats;
                      finalized = false;
                      merchant_names = names;
                    }
                      ∷ [])
                  next))
  unfolding load_sets
  load_sets-save_set ⦃s⦄ conn id capacity sats names rows h l32 small1 small2 small3 fresh members
        before =
      let (stored, (e, p)) = unscanned conn rows before in
      let (done, read) =
        save_set-appends conn id capacity sats names stored h l32 small1 small2 small3 fresh members
          e in
      let final = (save_set conn id capacity sats names).0 in
      let (next, (e', q)) =
        collect-perm (read_set final) final.sets (s.rows final.sets) _ (s.rows-Perm final.sets)
          read in
      (done, (next, (e', Permᴰ.trans (Permᴰ.append_right _ p) q)))

  -- What a row is read as.
  read_set-encode :
      (conn : Connection) (row : SetRecord) (id : Bytes)
      → row.set_id ≡ x.encode id
      → length id ≡ 32
      → read_set conn row
        ≡ ok (record {
          set_id = id;
          beneficiary_capacity = row.beneficiary_capacity;
          sats_per_user = row.sats_per_user;
          finalized = not (row.finalized == 0);
          merchant_names =
              map
                (λ (m : SetMerchantRecord). m.merchant_name)
                (order_by position_leb (members_of row.set_id conn.set_merchants));
        })
  unfolding read_set
  read_set-encode conn row id e l = bind-ok _ (ap read_set_id e ∙ read_set_id-encode id l)

  encode_injective : (a b : Bytes) → x.encode a ≡ x.encode b → a ≡ b
  encode_injective a b e =
      let same : ◌≡◌ {A = Option Bytes} (some a) (some b) =
        sym (x.decode-encode a) ∙ ap x.decode e ∙ x.decode-encode b in
      cc

  -- The set with the id, finalized.
  abbrev pub finalize : Bytes → SetRow → SetRow
  finalize id row = if row.set_id === id then record row { finalized = true } else row

  finalize_row-read :
      (conn next : Connection) (row : SetRecord) (own id : Bytes) (txid : Option Bytes) (r : SetRow)
      → next.set_merchants ≡ conn.set_merchants
      → row.set_id ≡ x.encode own
      → length own ≡ 32
      → read_set conn row ≡ ok r
      → read_set next (
          if row.set_id === x.encode id
          then record row { finalized = 1; commitment_txid = txid }
          else row)
        ≡ ok (finalize id r)
  finalize_row-read conn next row own id txid r same is l e =
      let made = ok_injective (sym (read_set-encode conn row own is l) ∙ e) in
      let named : r.set_id ≡ own = ap (λ t. t.set_id) (sym made) in
      let members = ap (members_of row.set_id) same in
      elim (Bool-cases (row.set_id === x.encode id)) [
        | inl t ↦
            let ids : own ≡ id =
              encode_injective own id (sym is ∙ (text_eq row.set_id (x.encode id)).0 t) in
            let u : (r.set_id === id) ≡ true = (text_eq r.set_id id).1 (named ∙ ids) in
            rw (t, u)
              (read_set-encode next (record row { finalized = 1; commitment_txid = txid }) own is l
                ∙ rw (members, ← made) refl)
        | inr t ↦
            let u : (r.set_id === id) ≡ false = elim (Bool-cases (r.set_id === id)) [
              | inr v ↦ v
              | inl v ↦
                  let w =
                    (text_eq row.set_id (x.encode id)).1
                      (is ∙ ap x.encode (sym named ∙ (text_eq r.set_id id).0 v)) in
                  absurd cc
            ] in
            rw (t, u) (read_set-members conn next row members ∙ e)
      ]

  finalize_rows-read :
      (conn next : Connection) (sets : List SetRecord) (id : Bytes) (txid : Option Bytes)
      (rows : List SetRow)
      → next.set_merchants ≡ conn.set_merchants
      → All (λ (r : SetRecord). IsSetId r.set_id) sets
      → collect (read_set conn) sets ≡ ok rows
      → collect (read_set next) (finalize_rows sets id txid) ≡ ok (map (finalize id) rows)
  finalize_rows-read conn next [] id txid rows same h e =
      ap (λ t. ok (map (finalize id) t)) (ok_injective e)
  finalize_rows-read conn next (row ∷ sets) id txid rows same ((own, (is, l)), h) e =
      let (r, (e1, e2)) = bind_inverts (read_set conn row) _ e in
      let (rs, (e3, e4)) = bind_inverts (collect (read_set conn) sets) _ e2 in
      let rest = finalize_rows-read conn next sets id txid rs same h e3 in
      let read : read_set next (
            if row.set_id === x.encode id
            then record row { finalized = 1; commitment_txid = txid }
            else row)
          ≡ ok (finalize id r) =
        finalize_row-read conn next row own id txid r same is l e1 in
      bind-ok _ read ∙ bind-ok _ rest ∙ ap (λ t. ok (map (finalize id) t)) (ok_injective e4)

  -- Over a database that keeps its constraints, mark_set_finalized makes load_sets read, in some order,
  -- the set with the id as finalized and every other set as before; an id that is in no row changes
  -- nothing.
  pub load_sets-mark_set_finalized :
      ⦃s : Scan⦄ (conn : Connection) (id : Bytes) (txid : Option Bytes) (rows : List SetRow)
      → IsDatabase conn
      → load_sets conn ≡ ok rows
      → (next : List SetRow) × ((load_sets (mark_set_finalized conn id txid) ≡ ok next)
          × Permᴰ (map (finalize id) rows) next)
  unfolding load_sets mark_set_finalized
  load_sets-mark_set_finalized ⦃s⦄ conn id txid rows h e =
      let (stored, (e1, p)) = unscanned conn rows e in
      let final : Connection = record conn { sets = finalize_rows conn.sets id txid } in
      let (next, (e2, q)) =
        collect-perm (read_set final) final.sets (s.rows final.sets) _ (s.rows-Perm final.sets)
          (finalize_rows-read conn final conn.sets id txid stored refl h.sets_sized e1) in
      (next, (e2, Permᴰ.trans (map-perm (finalize id) rows stored p) q))
