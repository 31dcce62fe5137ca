-- ===== src/Wallets/Scan.antt =====
-- Sequences of get-address of bin/veiled_wallet.rs, and what get-balance-fast scans after them.
use veiled.Prelude.{
  Bool, false, some, none, ok_or, zero, ok_injective, ◌||◌, ℕ, suc, ◌+◌, ◌^◌, ◌%◌, ◌≤◌, ◌<◌, ◌≡◌,
  refl, sym, ap, ◌∙◌, subst, true, Bool-cases, inl, inr, leb, List, [], ◌∷◌, ◌++◌, length, tabulate,
  tabulate_from, Bytes, codes, list_eq, nat_eq, ◌===◌, contains, contains-append, beq_refl, All,
  arith, if◌then◌else◌, ok,
}
use veiled.Wallets.Bdk.{
  NotTorn, CachedBalance, Bdk, BdkLaws, StateJson, Host, WalletState, external, internal,
}
use veiled.Wallets.Io.{Files, ignore, scantxoutset}
use veiled.Wallets.Json.{GetAddressParams, GetBalanceParams, balance_read}
use veiled.Wallets.Steps.{load_step, lift_step, then_ok, cache_ignored}
use veiled.Wallets.Sync.{recreate_wallet}
use veiled.Wallets.Handlers.{
  addr, descriptors, handle_get_address, rpc_client, cache_balance, handle_get_balance_fast,
}
use veiled.Wallets.Kept.{loaded}
use veiled.Wallets.Addresses.{
  IsWallet, recreate_wallet-addresses, get_addresses, moved, handle_get_address-IsStep,
}

module _ ⦃b : Bdk⦄ ⦃l : BdkLaws⦄ ⦃j : StateJson⦄ where
  moved-IsWallet : (s : WalletState) (w : b.Wallet) → IsWallet s w → IsWallet (moved s w) w
  moved-IsWallet s w h = record {
    words = h.words;
    key = h.key;
    parsed = h.parsed;
    mastered = h.mastered;
    made = h.made;
  }

  -- The state after the calls: the same wallet, with the last index.
  pub record Revealed (n : ℕ) (s t : WalletState) (w : b.Wallet) (addresses : List Bytes)
      : Type 0 where
    pub same_wallet : IsWallet t w
    pub at_most : length addresses ≤ n
    pub last_index : t.address_index ≡ s.address_index + length addresses
    pub in_order :
        addresses
        ≡ tabulate_from (s.address_index + 1) (length addresses) (λ i. b.peek_address w external i)

  Revealed-one :
      (n : ℕ) (s t : WalletState) (w : b.Wallet) (rest : List Bytes)
      → Revealed n (moved s w) t w rest
      → Revealed (suc n) s t w ((moved s w).address ∷ rest)
  Revealed-one n s t w rest h =
      let i : s.address_index + 1 + 1 ≡ suc (s.address_index + 1) = omega arith in
      record {
        same_wallet = h.same_wallet;
        at_most = omega (arith, h.at_most);
        last_index = h.last_index ∙ omega arith;
        in_order = ap (◌∷◌ (moved s w).address) (
            h.in_order
            ∙ ap (λ k. tabulate_from k (length rest) (λ i. b.peek_address w external i)) i);
      }

  Revealed-none :
      (n : ℕ) (s t : WalletState) (w : b.Wallet) (addresses : List Bytes)
      → Revealed n s t w addresses
      → Revealed (suc n) s t w addresses
  Revealed-none n s t w addresses h = record {
    same_wallet = h.same_wallet;
    at_most = omega (arith, h.at_most);
    last_index = h.last_index;
    in_order = h.in_order;
  }

  -- Calls of get-address, with any nodes, with reads failing or not and with writes refused but not torn, on a wallet whose indices stay below 2^31: the
  -- addresses that the successful calls answer are those of the indices that follow the one of the
  -- state, one after the other, so none is answered twice; failed calls skip none, and afterwards the file has the state
  -- with the index of the last one.
  pub get_addresses-Revealed :
      (p : GetAddressParams) (hosts : List Host) (files : Files) (s : WalletState) (w : b.Wallet)
      → loaded files p.state_path ≡ ok s
      → IsWallet s w
      → All (λ (h : Host). NotTorn h) hosts
      → s.address_index + length hosts < 2 ^ 31
      → (t : WalletState) × ((loaded (get_addresses p hosts files).0 p.state_path ≡ ok t)
          × Revealed (length hosts) s t w (get_addresses p hosts files).1)
  get_addresses-Revealed p [] files s w at h all small = (
    s,
    (
      at,
      record { same_wallet = h; at_most = omega arith; last_index = omega arith; in_order = refl },
    ),
  )
  get_addresses-Revealed p (host ∷ hosts) files s w at h (safe, all) small =
      elim (handle_get_address-IsStep host safe p files s w at h (omega arith)) [
        | inl (same, none_answered) ↦
            let at' : loaded (handle_get_address host p files).0 p.state_path ≡ ok s =
              ap (λ f. loaded f p.state_path) same ∙ at in
            let (t, (e, r)) =
              get_addresses-Revealed p hosts (handle_get_address host p files).0 s w at' h all
                (omega arith) in
            (t, (e, rw none_answered (Revealed-none _ s t w _ r)))
        | inr (at', one_answered) ↦
            let (t, (e, r)) =
              get_addresses-Revealed p hosts (handle_get_address host p files).0 (moved s w) w at'
                (moved-IsWallet s w h) all (omega arith) in
            (t, (e, rw one_answered (Revealed-one _ s t w _ r)))
      ]

  -- A value of a function below a bound is among its values.
  contains-tabulate_from :
      (f : ℕ → Bytes) (i n k : ℕ) → k < n → contains (tabulate_from i n f) (f (i + k)) ≡ true
  contains-tabulate_from f i zero k h = elim h [ ]
  contains-tabulate_from f i (suc n) zero h =
      let e : i + 0 ≡ i = omega arith in rw e (ground (arith, beq_refl (f i)))
  contains-tabulate_from f i (suc n) (suc k) h =
      let e : suc i + k ≡ i + suc k = omega arith in
      let rest = contains-tabulate_from f (suc i) n k (omega arith) in
      elim (Bool-cases (f i === f (i + suc k))) [ inl t ↦ rw t refl | inr t ↦ rw t (rw e at rest) ]

  contains-tabulate : (f : ℕ → Bytes) (n k : ℕ) → k < n → contains (tabulate n f) (f k) ≡ true
  contains-tabulate f n k h =
      let e : 0 + k ≡ k = omega arith in rw e at (contains-tabulate_from f 0 n k h)

  All-tabulate_from :
      (P : Bytes → Type 0) (f : ℕ → Bytes) (i n : ℕ)
      → ((k : ℕ) → k < i + n → P (f k))
      → All P (tabulate_from i n f)
  All-tabulate_from P f i zero h = tt
  All-tabulate_from P f i (suc n) h =
      (h i (omega arith), All-tabulate_from P f (suc i) n (λ k below. h k (omega arith)))

  -- An address up to the index of the state is scanned.
  descriptors-contains :
      (u : b.Wallet) (index i : ℕ)
      → i ≤ index
      → index + 5 < 2 ^ 32
      → contains (descriptors u index) (addr u external i) ≡ true
  unfolding descriptors
  descriptors-contains u index i below small =
      let bound : i < ((if leb index 5 then 5 else index) + 5) % 2 ^ 32 = ground arith in
      contains-append (tabulate _ (addr u external)) (tabulate 20 (addr u internal))
        (addr u external i)
      ∙ ap (λ q. q || contains (tabulate 20 (addr u internal)) (addr u external i))
          (contains-tabulate (addr u external) _ i bound)

  -- The text that get-balance-fast asks the node for.
  abbrev pub Scanned : b.Wallet → ℕ → Bytes → Type 0
  Scanned u index a = contains (descriptors u index) (codes "addr(" ++ (a ++ codes ")")) ≡ true

  Scanned-up_to :
      (t : WalletState) (w u : b.Wallet) (i : ℕ)
      → IsWallet t w
      → t.address_index + 1 < 2 ^ 31
      → recreate_wallet t ≡ ok u
      → i ≤ t.address_index
      → Scanned u t.address_index (b.peek_address w external i)
  unfolding addr
  Scanned-up_to t w u i h small e below =
      let (_, peeks) = recreate_wallet-addresses t w u h small e in
      ap (λ a. contains (descriptors u t.address_index) (codes "addr(" ++ (a ++ codes ")")))
        (sym (peeks i))
      ∙ descriptors-contains u t.address_index i below (omega arith)

  -- Every address that such calls answered is scanned from the state afterwards.
  get_addresses-Scanned :
      (p : GetAddressParams) (hosts : List Host) (files : Files) (s t : WalletState)
      (w u : b.Wallet)
      → loaded files p.state_path ≡ ok s
      → IsWallet s w
      → All (λ (h : Host). NotTorn h) hosts
      → s.address_index + length hosts + 1 < 2 ^ 31
      → loaded (get_addresses p hosts files).0 p.state_path ≡ ok t
      → recreate_wallet t ≡ ok u
      → All (Scanned u t.address_index) (get_addresses p hosts files).1
  get_addresses-Scanned p hosts files s t w u at h all small at' e =
      let (t', (e', r)) = get_addresses-Revealed p hosts files s w at h all (omega arith) in
      let same : t' ≡ t = ok_injective (sym e' ∙ at') in
      let count = r.at_most in
      let index : t.address_index ≡ s.address_index + length (get_addresses p hosts files).1 =
        ap (λ q. q.address_index) (sym same) ∙ r.last_index in
      let wallet : IsWallet t w = subst (λ q. IsWallet q w) same r.same_wallet in
      rw r.in_order (
        All-tabulate_from (Scanned u t.address_index) (λ i. b.peek_address w external i) _ _
          (λ k below. Scanned-up_to t w u k wallet (omega arith) e (omega arith)))

  -- A node that has the coins only of a scan that asks for all the addresses.
  abbrev pub asks : List Bytes → List Bytes → Bool
  asks [] scanned = true
  asks (a ∷ addresses) scanned =
      let rest = asks addresses scanned in
      if contains scanned (codes "addr(" ++ (a ++ codes ")")) then rest else false

  abbrev pub paying : Host → List Bytes → ℕ → Host
  paying host addresses total = record host {
    scantxoutset = λ scanned. if asks addresses scanned then some (some total) else none;
  }

  asks-Scanned :
      (u : b.Wallet) (index : ℕ) (addresses : List Bytes)
      → All (Scanned u index) addresses
      → asks addresses (descriptors u index) ≡ true
  asks-Scanned u index [] h = refl
  asks-Scanned u index (a ∷ addresses) (e, h) = rw (e, asks-Scanned u index addresses h) refl

  -- The ignored write of the balance does not change the answer.
  fast_answer :
      (host : Host) (p : GetBalanceParams) (files : Files) (t : WalletState) (u : b.Wallet)
      (total : ℕ)
      → host.readable p.state_path ≡ true
      → rpc_client host p.rpc ≡ ok tt
      → loaded files p.state_path ≡ ok t
      → recreate_wallet t ≡ ok u
      → host.scantxoutset (descriptors u t.address_index) ≡ some (some total)
      → (handle_get_balance_fast host p files).1
        ≡ ok (balance_read (record { confirmed = total; unconfirmed = 0; total = total }))
  unfolding handle_get_balance_fast
  fast_answer host p files t u total r up at e scan =
      let cached : CachedBalance = record { confirmed = total; unconfirmed = 0; total = total } in
      ap (λ q. q.1)
        (load_step host p.state_path _ files t r at
          ∙ lift_step _ _ files tt up
          ∙ lift_step _ _ files u e
          ∙ lift_step _ _ files (some total) (ap (λ o. ok_or o scantxoutset) scan))
      ∙ then_ok (ignore (cache_balance host p.state_path cached)) _ files tt
          (cache_ignored host p.state_path cached files t r at)

  -- After such calls, get-balance-fast answers the total of a node that has it only for a scan of
  -- every address that the calls answered, when the node can be connected to, the file can be read,
  -- and the wallet can be recreated from its state.
  pub get_balance_fast-get_addresses :
      (p : GetAddressParams) (q : GetBalanceParams) (hosts : List Host) (host : Host)
      (files : Files) (s t : WalletState) (w u : b.Wallet) (total : ℕ)
      → loaded files p.state_path ≡ ok s
      → IsWallet s w
      → All (λ (h : Host). NotTorn h) hosts
      → s.address_index + length hosts + 1 < 2 ^ 31
      → loaded (get_addresses p hosts files).0 p.state_path ≡ ok t
      → recreate_wallet t ≡ ok u
      → q.state_path ≡ p.state_path
      → host.readable q.state_path ≡ true
      → rpc_client host q.rpc ≡ ok tt
      → (handle_get_balance_fast
          (paying host (get_addresses p hosts files).1 total)
          q
          (get_addresses p hosts files).0).1
        ≡ ok (balance_read (record { confirmed = total; unconfirmed = 0; total = total }))
  unfolding rpc_client
  get_balance_fast-get_addresses p q hosts host files s t w u total at h all small at' e path r up =
      let addresses = (get_addresses p hosts files).1 in
      let asked = get_addresses-Scanned p hosts files s t w u at h all small at' e in
      fast_answer (paying host addresses total) q (get_addresses p hosts files).0 t u total r up
        (ap (loaded (get_addresses p hosts files).0) path ∙ at') e
        (rw (asks-Scanned u t.address_index addresses asked) refl)
