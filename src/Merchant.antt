-- ===== src/Merchant.antt =====
-- `Merchant` of core/merchant.rs: its state and its constructor. What it does with a registration
-- is in the module below.
pub mod Receive
use veiled.Prelude.{bind-ok, ◌≡◌, refl, ◌≤◌, length, ℕ, Bytes, codes, ◌++◌, [], Outcome, ok, ◌>>=◌}
use veiled.Prelude.Map.{Map}
use veiled.Types.{max_len}
use veiled.Crypto.{Crypto}
use veiled.Types.Name
use veiled.Types.Name.{Name}
use veiled.Proof.{PaymentIdentityRegistration}

pub record Merchant : Type 0 where
  pub name : Name
  pub credential_generator : Bytes
  pub origin : Bytes
  pub merchant_id : ℕ
  pub registered_identities : Map Bytes PaymentIdentityRegistration

-- `CRS_DST`
abbrev pub crs_dst : Bytes
crs_dst = codes "CRS-ASC-v1"

unfoldable pub new {κ} : ⦃c : Crypto⦄ {E : Type κ} → Bytes → Bytes → Outcome E Merchant
new ⦃c⦄ name origin = do
  let tag = codes "CRS-ASC-credential-generator-" ++ name
  let point = c.hash_to_curve tag crs_dst
  n ← Name.new name
  ok (record {
    name = n;
    credential_generator = c.point_to_bytes point;
    origin = origin;
    merchant_id = 0;
    registered_identities = [];
  })

-- A merchant with a name within the cap is made, without registrations.
pub new_short {κ} :
    ⦃c : Crypto⦄ {E : Type κ} (name origin : Bytes)
    → length name ≤ max_len
    → (m : Merchant) × ((new {E = E} name origin ≡ ok m) × (m.registered_identities ≡ []))
unfolding new
new_short name origin h = (_, (bind-ok _ (Name.new_short name h), refl))
