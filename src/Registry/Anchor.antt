-- ===== src/Registry/Anchor.antt =====
-- `create_anonymity_set` of core/registry.rs and the root that it commits to.
use veiled.Prelude.{
  ◌%◌, ◌^◌, ◌↔◌, some, ok_or, ok_or_inverts, bind_inverts, bind-ok, ok_injective, ℕ, zero, suc, ◌-◌,
  ◌*◌, ◌≤◌, ◌<◌, ◌≡◌, refl, sym, ap, ap₂, ◌∙◌, arith, inl, inr, true, false, leb, if◌then◌else◌,
  Bool-cases, List, [], ◌∷◌, ◌++◌, length, replicate, length-append, length-map, append_assoc,
  subst, Bytes, Outcome, ok, err, panic, ◌==◌,
}
use veiled.Crypto.{Crypto}
use veiled.Bitcoin.{Bitcoin, OutPoint}
use veiled.Types.{Commitment}
use veiled.Registry.{
  Registry, RegistryError, TaprootCommitment, set_is_empty, tweak_scalar_overflow,
  tweak_addition_failed, anchor, create_anonymity_set,
}
use veiled.Registry.Merkle.{
  power_from, next_power_of_two, last_or, pad_leaves, leaves, climb, merkle_root, merkle_root-ok,
}

module _ ⦃c : Crypto⦄ ⦃b : Bitcoin⦄ where
  -- The set id is the root, and the result that of the anchoring.
  pub create_anonymity_set-commits :
      (reg : Registry) (funding_outpoint : OutPoint)
      → 1 ≤ length reg.anonymity_set
      → (root : Bytes) × ((◌≡◌ {A = Outcome RegistryError Bytes}
            (merkle_root reg.anonymity_set)
            (ok root))
          × (create_anonymity_set reg funding_outpoint
              ≡ (record reg { set_id = root }, anchor reg root funding_outpoint)))
  unfolding create_anonymity_set
  create_anonymity_set-commits reg fo h =
      let (root, is_ok) = merkle_root-ok {E = RegistryError} reg.anonymity_set h in
      let t : (length reg.anonymity_set == 0) ≡ false = ground arith in
      (
        root,
        (
          is_ok,
          ap
                (λ b.
                  if b
                  then (reg, err set_is_empty)
                  else elim (merkle_root {E = RegistryError} reg.anonymity_set) [
                    | ok root ↦ (record reg { set_id = root }, anchor reg root fo)
                    | err e ↦ (reg, err e)
                    | panic ↦ (reg, panic)
                  ])
                t
              ∙ ap
                  (λ m. elim m [
                    | ok root ↦ (record reg { set_id = root }, anchor reg root fo)
                    | err e ↦ (reg, err e)
                    | panic ↦ (reg, panic)
                  ])
                  is_ok,
        ),
      )

  pub create_anonymity_set_empty :
      (reg : Registry) (funding_outpoint : OutPoint)
      → reg.anonymity_set ≡ []
      → create_anonymity_set reg funding_outpoint ≡ (reg, err set_is_empty)
  unfolding create_anonymity_set
  create_anonymity_set_empty reg fo h =
      let t : (length reg.anonymity_set == 0) ≡ true = ap (λ s. length s == 0) h in rw t

module _ ⦃c : Crypto⦄ ⦃b : Bitcoin⦄ where
  -- A transaction that spends the funding outpoint to one output: it pays the amount for each
  -- commitment, in 64 bits, to the internal key of the registry, tweaked by the hash of this key and
  -- the root.
  pub record Anchors (reg : Registry) (funding_outpoint : OutPoint) (root : Bytes)
      (commitment : TaprootCommitment) : Type 0 where
    pub tweak : Bytes
    pub committed : commitment.merkle_root ≡ root
    pub own_key : commitment.internal_key ≡ b.x_only_public_key reg.keypair
    pub hashed : b.scalar_from_be_bytes (c.sha256 (commitment.internal_key ++ root)) ≡ some tweak
    pub tweaked : b.add_tweak commitment.internal_key tweak ≡ some commitment.output_key
    pub spends : commitment.tx.input ≡ record { previous_output = funding_outpoint } ∷ []
    pub pays :
        commitment.tx.output
        ≡ record {
          value = reg.amount * length reg.anonymity_set % 2 ^ 64;
          script_pubkey = b.new_p2tr_tweaked commitment.output_key;
        }
          ∷ []
    pub second_version : commitment.tx.version ≡ 2
    pub not_locked : commitment.tx.lock_time ≡ 0

  anchor-Anchors :
      (reg : Registry) (fo : OutPoint) (root : Bytes) (t : TaprootCommitment)
      → (anchor reg root fo ≡ ok t) ↔ Anchors reg fo root t
  unfolding anchor
  anchor-Anchors reg fo root t = (
    λ e.
        let key = b.x_only_public_key reg.keypair in
        let (tweak, (e1, r1)) =
          bind_inverts
            (ok_or (b.scalar_from_be_bytes (c.sha256 (key ++ root))) tweak_scalar_overflow) _ e in
        let (out, (e2, r2)) =
          bind_inverts (ok_or (b.add_tweak key tweak) tweak_addition_failed) _ r1 in
        subst (Anchors reg fo root) (ok_injective r2) (record {
          tweak = tweak;
          committed = refl;
          own_key = refl;
          hashed = ok_or_inverts _ _ e1;
          tweaked = ok_or_inverts _ _ e2;
          spends = refl;
          pays = refl;
          second_version = refl;
          not_locked = refl;
        }),
    λ h.
        let key = sym h.own_key in
        let second_version = sym h.second_version in
        let not_locked = sym h.not_locked in
        let spends = sym h.spends in
        let pays = sym h.pays in
        let committed = sym h.committed in
        let hashed : b.scalar_from_be_bytes (c.sha256 (b.x_only_public_key reg.keypair ++ root))
            ≡ some h.tweak =
          ap (λ k. b.scalar_from_be_bytes (c.sha256 (k ++ root))) key ∙ h.hashed in
        let tweaked : b.add_tweak (b.x_only_public_key reg.keypair) h.tweak ≡ some t.output_key =
          ap (λ k. b.add_tweak k h.tweak) key ∙ h.tweaked in
        bind-ok _ (ap (λ o. ok_or o tweak_scalar_overflow) hashed)
        ∙ bind-ok _ (ap (λ o. ok_or o tweak_addition_failed) tweaked)
        ∙ λ i. ok (record {
          tx = record {
            version = second_version i;
            lock_time = not_locked i;
            input = spends i;
            output = pays i;
          };
          merkle_root = committed i;
          internal_key = key i;
          output_key = t.output_key;
        }),
  )

  -- A set that is not empty has a root, which becomes the set id, whether or not the anchoring
  -- succeeds, and nothing else of the registry changes. A commitment is returned exactly when it is a
  -- transaction from the funding outpoint to one output, of the amount for each commitment of the set,
  -- to the key of the registry tweaked by the hash of this key and the root, with its keys and root
  -- beside it.
  pub create_anonymity_set-Anchors :
      (reg : Registry) (funding_outpoint : OutPoint)
      → 1 ≤ length reg.anonymity_set
      → (root : Bytes) × ((merkle_root {E = RegistryError} reg.anonymity_set ≡ ok root)
          × (((create_anonymity_set reg funding_outpoint).0 ≡ record reg { set_id = root })
              × ((t : TaprootCommitment)
                  → ((create_anonymity_set reg funding_outpoint).1 ≡ ok t)
                    ↔ Anchors reg funding_outpoint root t)))
  create_anonymity_set-Anchors reg fo h =
      let (root, (is_ok, same)) = create_anonymity_set-commits reg fo h in
      let result = ap (λ q. q.1) same in
      (
        root,
        (
          is_ok,
          (
            ap (λ q. q.0) same,
            λ t. (
              λ e. (anchor-Anchors reg fo root t).0 (sym result ∙ e),
              λ a. result ∙ (anchor-Anchors reg fo root t).1 a,
            ),
          ),
        ),
      )

-- A set with room in its power of two has the same power with one more.
power_from-room :
    (fuel p n : ℕ) → n < power_from fuel p n → power_from (suc fuel) p (suc n) ≡ power_from fuel p n
unfolding power_from
power_from-room zero p n h = let t : leb (suc n) p ≡ true = ground arith in rw t
power_from-room (suc fuel) p n h = elim (Bool-cases (leb n p)) [
  | inl enough ↦
      let room : n < p =
        subst (λ t. n < t) (ap (λ b. if b then p else power_from fuel (2 * p) n) enough) h in
      let fits : leb (suc n) p ≡ true = ground (arith, room) in
      ap (λ b. if b then p else power_from (suc fuel) (2 * p) (suc n)) fits
      ∙ sym (ap (λ b. if b then p else power_from fuel (2 * p) n) enough)
  | inr more ↦
      let room : n < power_from fuel (2 * p) n =
        subst (λ t. n < t) (ap (λ b. if b then p else power_from fuel (2 * p) n) more) h in
      let exceeds : leb (suc n) p ≡ false = ground (arith, more) in
      ap (λ b. if b then p else power_from (suc fuel) (2 * p) (suc n)) exceeds
      ∙ power_from-room fuel (2 * p) n room
      ∙ sym (ap (λ b. if b then p else power_from fuel (2 * p) n) more)
]

last_or-snoc : (d x : Bytes) (xs : List Bytes) → last_or d (xs ++ x ∷ []) ≡ x
last_or-snoc d x [] = refl
last_or-snoc d x (y ∷ ys) = last_or-snoc y x ys

-- Padding adds what a duplicate of the last leaf would be.
pad_leaves-duplicate :
    (xs : List Bytes)
    → length xs < next_power_of_two (length xs)
    → pad_leaves (xs ++ last_or [] xs ∷ []) ≡ pad_leaves xs
unfolding pad_leaves next_power_of_two
pad_leaves-duplicate xs room =
    let last = last_or [] xs in
    let n = length xs in
    let len : length (xs ++ last ∷ []) ≡ suc n = omega (arith, length-append xs (last ∷ [])) in
    ap₂ (λ m l. (xs ++ last ∷ []) ++ replicate (next_power_of_two m - m) l) len
      (last_or-snoc [] last xs)
    ∙ ap (λ p. (xs ++ last ∷ []) ++ replicate (p - suc n) last) (power_from-room n 1 n room)
    ∙ append_assoc xs (last ∷ []) (replicate (next_power_of_two n - suc n) last)
    ∙ ap (λ k. xs ++ replicate k last) {x = suc (next_power_of_two n - suc n)}
        {y = next_power_of_two n - n} (omega arith)

module _ ⦃c : Crypto⦄ where
  leaves-snoc :
      (set : List Commitment) (x : Commitment)
      → leaves (set ++ x ∷ []) ≡ leaves set ++ c.sha256 x ∷ []
  unfolding leaves
  leaves-snoc [] x = refl
  leaves-snoc (y ∷ ys) x = ap (λ t. c.sha256 y ∷ t) (leaves-snoc ys x)

  leaves-last :
      (d : Commitment) (set : List Commitment)
      → last_or (c.sha256 d) (leaves set) ≡ c.sha256 (last_or d set)
  unfolding leaves
  leaves-last d [] = refl
  leaves-last d (x ∷ xs) = leaves-last x xs

  -- A set that is not empty and whose size is below the next power of two has the same root as the
  -- set with its last commitment once more.
  pub merkle_root-duplicate {κ} :
      {E : Type κ} (x : Commitment) (set : List Commitment)
      → length (x ∷ set) < next_power_of_two (length (x ∷ set))
      → merkle_root {E = E} ((x ∷ set) ++ last_or [] (x ∷ set) ∷ []) ≡ merkle_root {E = E} (x ∷ set)
  unfolding merkle_root leaves
  merkle_root-duplicate x set room =
      ap (λ padded. climb (length padded) padded)
        (ap pad_leaves (
            leaves-snoc (x ∷ set) (last_or x set)
            ∙ ap (λ l. leaves (x ∷ set) ++ l ∷ []) (sym (leaves-last [] (x ∷ set))))
          ∙ pad_leaves-duplicate (leaves (x ∷ set))
              (subst (λ n. n < next_power_of_two n) (sym (length-map c.sha256 (x ∷ set))) room))

-- Only the set id changes.
pub create_anonymity_set_only_id :
    ⦃c : Crypto⦄ ⦃b : Bitcoin⦄ (reg : Registry) (funding_outpoint : OutPoint)
    → (create_anonymity_set reg funding_outpoint).0
      ≡ record reg { set_id = (create_anonymity_set reg funding_outpoint).0.set_id }
create_anonymity_set_only_id reg fo = set_cases reg.anonymity_set refl
  where
    set_cases :
        (s : List Commitment)
        → reg.anonymity_set ≡ s
        → (create_anonymity_set reg fo).0
          ≡ record reg { set_id = (create_anonymity_set reg fo).0.set_id }
    set_cases [] e =
        let same = ap (λ t. t.0) (create_anonymity_set_empty reg fo e) in
        same ∙ ap (λ r. record reg { set_id = r.set_id }) (sym same)
    set_cases (x ∷ xs) e =
        let some_in : 1 ≤ length reg.anonymity_set =
          subst (λ t. 1 ≤ length t) (sym e) (omega arith) in
        let (root, (_, both)) = create_anonymity_set-commits reg fo some_in in
        let same = ap (λ t. t.0) both in
        same ∙ ap (λ r. record reg { set_id = r.set_id }) (sym same)
