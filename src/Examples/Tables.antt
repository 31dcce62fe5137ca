-- ===== src/Examples/Tables.antt =====
-- A history of the tables of registry/db.rs.
use veiled.Prelude.{
  some, ◌≡◌, refl, arith, false, List, [], ◌∷◌, none, map, Bytes, codes, replicate, length, ok,
  list_eq, nat_eq, All,
}
use veiled.Crypto.Toy.{toy}
use veiled.Db.{
  Connection, merchant_key, open_db, save_merchant, save_set, save_set_merchants,
  mark_set_finalized, load_wallet_mnemonic, create_tables,
}
use mathlib.Core.List.{Permᴰ}
use mathlib.Core.List.Permᴰ as Permᴰ
use veiled.Db.Scans.{find_row}
use veiled.Db.Read.{
  Scan, DbState, SetRow, load_state, load_sets, read_set, read_set_id, members_of, order_by,
  insert_ordered,
}
use veiled.Db.Keys.{
  Write, merchant_saved, set_saved, commitment_saved, mnemonic_saved, IsWrite, writes, IsDatabase,
}
use veiled.Db.Invariant.{open_db-IsDatabase}
use veiled.Db.First.{first_merchant, first_mnemonic, load_state-writes}
use veiled.Db.Sets.{finalize, load_sets-save_set, load_sets-mark_set_finalized}
use veiled.Service.Persist.{Call, calls, after, tables, pool_row, calls-Mirrors}
use veiled.Service.Store
use veiled.Examples.Commands.{plain}
use veiled.Examples.Serving.{wallet}

abbrev one_set : Bytes
one_set = replicate 32 7

abbrev other_set : Bytes
other_set = replicate 32 8

-- A merchant twice, a set, a commitment of it and one of an unknown set, and two mnemonics.
abbrev history : List Write
history =
    merchant_saved (codes "shop") (codes "a") [] []
    ∷ (merchant_saved (codes "shop") (codes "b") [] []
        ∷ (set_saved one_set 2 1000 (codes "shop" ∷ [])
            ∷ (commitment_saved one_set 0 (replicate 33 2) (replicate 32 1) 0
                ∷ (commitment_saved other_set 0 (replicate 33 2) (replicate 32 1) 0
                    ∷ (mnemonic_saved (codes "first") ∷ (mnemonic_saved (codes "second") ∷ []))))))

history-IsWrite : All IsWrite history
history-IsWrite = (
  tt,
  (
    tt,
    (
      refl,
      ((refl, (refl, (refl, omega arith))), ((refl, (refl, (refl, omega arith))), (tt, (tt, tt)))),
    ),
  ),
)

open_db-IsDatabase_example : IsDatabase (writes (open_db none) history)
open_db-IsDatabase_example = open_db-IsDatabase history history-IsWrite

-- A scan that goes backwards over two rows.
abbrev reversed : {R : Type 0} → List R → List R
reversed (r ∷ (q ∷ [])) = q ∷ (r ∷ [])
reversed rows = rows

reversed-Perm : {R : Type 0} (table : List R) → Permᴰ table (reversed table)
reversed-Perm [] = Permᴰ.refl []
reversed-Perm (r ∷ []) = Permᴰ.refl (r ∷ [])
reversed-Perm (r ∷ (q ∷ [])) = Permᴰ.swap refl refl
reversed-Perm (r ∷ (q ∷ (p ∷ rows))) = Permᴰ.refl (r ∷ (q ∷ (p ∷ rows)))

instance abbrev backwards : Scan
backwards = record { rows = reversed; rows-Perm = reversed-Perm }

load_state-writes_example :
    (state : DbState) × ((load_state (writes (open_db none) history) ≡ ok state)
      × (((length state.sets ≡ length (writes (open_db none) history).sets)
            × (length state.commitments ≡ length (writes (open_db none) history).commitments))
          × (((n : Bytes) → find_row merchant_key state.merchants n ≡ first_merchant history n)
              × (load_wallet_mnemonic (writes (open_db none) history) ≡ first_mnemonic history))))
load_state-writes_example = load_state-writes history history-IsWrite

abbrev shop_only : List Write
shop_only = merchant_saved (codes "shop") (codes "a") [] [] ∷ []

abbrev shop_db : Connection
shop_db = writes (open_db none) shop_only

load_sets-save_set_example :
    ((save_set shop_db one_set 2 1000 (codes "shop" ∷ [])).1 ≡ ok tt)
    × ((next : List SetRow) × ((load_sets (save_set shop_db one_set 2 1000 (codes "shop" ∷ [])).0
            ≡ ok next)
          × Permᴰ
              (record {
                set_id = one_set;
                beneficiary_capacity = 2;
                sats_per_user = 1000;
                finalized = false;
                merchant_names = codes "shop" ∷ [];
              }
                ∷ [])
              next))
unfolding open_db create_tables save_merchant load_sets
load_sets-save_set_example =
    load_sets-save_set shop_db one_set 2 1000 (codes "shop" ∷ []) []
      (open_db-IsDatabase shop_only (tt, tt)) refl (omega arith) (omega arith) (omega arith) refl
      (refl, tt) refl

abbrev set_history : List Write
set_history =
    merchant_saved (codes "shop") (codes "a") [] []
    ∷ (set_saved one_set 2 1000 (codes "shop" ∷ []) ∷ [])

abbrev set_row : SetRow
set_row = record {
  set_id = one_set;
  beneficiary_capacity = 2;
  sats_per_user = 1000;
  finalized = false;
  merchant_names = codes "shop" ∷ [];
}

load_sets-mark_set_finalized_example :
    (next : List SetRow) × ((load_sets
          (mark_set_finalized (writes (open_db none) set_history) one_set none)
        ≡ ok next)
      × Permᴰ (map (finalize one_set) (set_row ∷ [])) next)
unfolding open_db create_tables save_merchant save_set save_set_merchants load_sets read_set
    read_set_id members_of order_by insert_ordered
load_sets-mark_set_finalized_example =
    load_sets-mark_set_finalized (writes (open_db none) set_history) one_set none (set_row ∷ [])
      (open_db-IsDatabase set_history (tt, (refl, tt))) refl

-- The same merchant registered twice: the second call is refused.
abbrev two_calls : List Call
two_calls =
    record {
      name = codes "shop";
      origin = codes "a";
      email = [];
      phone = [];
      outpoint = Store.null_outpoint;
      required_fee = 1;
    }
    ∷ (record {
      name = codes "shop";
      origin = codes "b";
      email = [];
      phone = [];
      outpoint = Store.null_outpoint;
      required_fee = 1;
    }
        ∷ [])

calls-Mirrors_example :
    find_row merchant_key
      (tables (calls (Store.new wallet (some (after []))) two_calls).db).merchants
      (codes "shop")
    ≡ pool_row (calls (Store.new wallet (some (after []))) two_calls).merchant_pool (codes "shop")
calls-Mirrors_example = calls-Mirrors wallet two_calls (codes "shop")
