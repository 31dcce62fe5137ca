-- ===== src/Examples/Wallets.antt =====
-- A small wallet library, node and JSON form for bin/veiled_wallet.rs.
use veiled.Prelude.{
  ℕ, zero, suc, ◌+◌, ◌≡◌, refl, ap, ◌∙◌, true, List, [], ◌∷◌, ◌++◌, Option, none, some, Bytes,
  length, take, drop, take-append, drop-append, list_eq, nat_eq,
}
use veiled.Wallets.Bdk.{
  Bdk, BdkLaws, StateJson, WalletState, CachedBalance, CheckPoint, external, no_balance,
}

-- A wallet: its seed, the next external index, its tip and its confirmed coins.
pub record Purse : Type 0 where
  pub seed : Bytes
  pub next : ℕ
  pub tip : CheckPoint
  pub coins : ℕ

abbrev pub genesis : CheckPoint
genesis = record { height = 0; hash = [] }

abbrev pub new_purse : Bytes → Purse
new_purse seed = record { seed = seed; next = 0; tip = genesis; coins = 0 }

instance abbrev pub purse_bdk : Bdk
purse_bdk = record {
  Mnemonic = Bytes;
  from_entropy = λ e. some e;
  to_text = λ m. m;
  parse = λ t. some t;
  parse-to_text = λ m. refl;
  Xpriv = Bytes;
  new_master = λ m. some m;
  descriptor = λ x k. some x;
  Wallet = Purse;
  create = λ x. some (new_purse x);
  peek_address = λ w k i. i ∷ w.seed;
  reveal_addresses_to = λ w n. record w { next = n + 1 };
  reveal_next_address = λ w. (w.next, w.next ∷ w.seed);
  is_block_hash = λ h. true;
  latest_checkpoint = λ w. w.tip;
  insert_checkpoint = λ w cp. some (record w { tip = cp });
  Block = CheckPoint × ℕ;
  Transaction = Bytes;
  apply_block_connected_to =
      λ w block. some (record w { tip = block.0; coins = w.coins + block.1 });
  apply_unconfirmed_txs = λ w txs. w;
  balance = λ w. record no_balance { confirmed = w.coins };
  transactions = λ w. [];
  Address = Bytes;
  address_from_str = λ t. some t;
  require_regtest = λ a. some a;
  Psbt = Bytes;
  build_tx = λ w script amount. some script;
  sign = λ w psbt. some (true, psbt);
  extract_tx = λ psbt. some psbt;
  compute_txid = λ tx. tx;
}

pub same_purse :
    (x : Bytes) (w : Purse) → ◌≡◌ {A = Option Purse} (some (new_purse x)) (some w) → w ≡ new_purse x
same_purse x w e = cc

pub inserted_purse :
    (w u : Purse) (cp : CheckPoint)
    → ◌≡◌ {A = Option Purse} (some (record w { tip = cp })) (some u)
    → u ≡ record w { tip = cp }
inserted_purse w u cp e = cc

instance abbrev pub purse_laws : BdkLaws
purse_laws = record {
  reveal_next_address-reveal_addresses_to = λ x w n e small. refl;
  reveal_next_address-insert_checkpoint =
      λ w u cp e. ap purse_bdk.reveal_next_address (inserted_purse w u cp e);
  peek_address-reveal_addresses_to = λ w n i. refl;
  peek_address-insert_checkpoint =
      λ w u cp i e. ap (λ v. purse_bdk.peek_address v external i) (inserted_purse w u cp e);
}

-- The JSON form: each field with its length.
abbrev pub fields : List Bytes → Bytes
fields [] = []
fields (f ∷ fs) = length f ∷ (f ++ fields fs)

abbrev pub read_fields : ℕ → Bytes → List Bytes
read_fields zero text = []
read_fields (suc n) [] = []
read_fields (suc n) (k ∷ text) = take k text ∷ read_fields n (drop k text)

pub read_fields-fields : (fs : List Bytes) → read_fields (length fs) (fields fs) ≡ fs
read_fields-fields [] = refl
read_fields-fields (f ∷ fs) =
    rw (take-append f (fields fs) (length f) refl, drop-append f (fields fs) (length f) refl)
      (ap (◌∷◌ f) (read_fields-fields fs))

abbrev pub height_text : Option ℕ → Bytes
height_text none = []
height_text (some n) = n ∷ []

abbrev pub read_height : Bytes → Option ℕ
read_height [] = none
read_height (n ∷ _) = some n

abbrev pub hash_text : Option Bytes → Bytes
hash_text none = []
hash_text (some h) = 1 ∷ h

abbrev pub read_hash : Bytes → Option Bytes
read_hash [] = none
read_hash (_ ∷ h) = some h

abbrev pub cached_text : Option CachedBalance → Bytes
cached_text none = []
cached_text (some c) = c.confirmed ∷ (c.unconfirmed ∷ (c.total ∷ []))

abbrev pub read_cached : Bytes → Option CachedBalance
read_cached (c ∷ (u ∷ (t ∷ _))) = some (record { confirmed = c; unconfirmed = u; total = t })
read_cached _ = none

read_height-height_text : (o : Option ℕ) → read_height (height_text o) ≡ o
read_height-height_text none = refl
read_height-height_text (some n) = refl

read_hash-hash_text : (o : Option Bytes) → read_hash (hash_text o) ≡ o
read_hash-hash_text none = refl
read_hash-hash_text (some h) = refl

read_cached-cached_text : (o : Option CachedBalance) → read_cached (cached_text o) ≡ o
read_cached-cached_text none = refl
read_cached-cached_text (some c) = refl

abbrev pub state_fields : WalletState → List Bytes
state_fields s =
    s.mnemonic
    ∷ (s.wallet_name
        ∷ (s.descriptor
            ∷ (s.change_descriptor
                ∷ (s.address
                    ∷ ((s.address_index ∷ [])
                        ∷ (s.network
                            ∷ (height_text s.checkpoint_height
                                ∷ (hash_text s.checkpoint_hash
                                    ∷ (cached_text s.cached_balance ∷ [])))))))))

abbrev pub read_state : List Bytes → Option WalletState
read_state (m ∷ (n ∷ (d ∷ (c ∷ (a ∷ ((i ∷ []) ∷ (net ∷ (h ∷ (hh ∷ (b ∷ [])))))))))) = some (record {
  mnemonic = m;
  wallet_name = n;
  descriptor = d;
  change_descriptor = c;
  address = a;
  address_index = i;
  network = net;
  checkpoint_height = read_height h;
  checkpoint_hash = read_hash hh;
  cached_balance = read_cached b;
})
read_state _ = none

pub read_state-state_fields : (s : WalletState) → read_state (state_fields s) ≡ some s
read_state-state_fields s =
    rw
      (
        read_height-height_text s.checkpoint_height,
        read_hash-hash_text s.checkpoint_hash,
        read_cached-cached_text s.cached_balance,
      )
      refl

instance abbrev pub state_json : StateJson
state_json = record {
  to_string_pretty = λ s. fields (state_fields s);
  from_str = λ t. read_state (read_fields 10 t);
  from_str-to_string_pretty =
      λ s. ap read_state (read_fields-fields (state_fields s)) ∙ read_state-state_fields s;
}
