-- ===== src/Types/FriendlyName.antt =====
-- `FriendlyName` of core/types.rs: the name that a beneficiary commits to, at most 255 bytes.
use veiled.Prelude.{arith, ◌≡◌, ◌≤◌, Bytes, length, ltb, Outcome, ok, err, panic, if◌then◌else◌}
use veiled.Crypto.{Crypto}
use veiled.Types.{max_len, TooLong}

pub record FriendlyName : Type 0 where
  pub text : Bytes

unfoldable pub try_new : Bytes → Outcome TooLong FriendlyName
try_new s =
    if ltb max_len (length s)
    then err (record { bytes = length s; max = max_len })
    else ok (record { text = s })

-- `try_new(s).expect(…)`
unfoldable pub new {κ} : {E : Type κ} → Bytes → Outcome E FriendlyName
unfolding try_new
new s = elim (try_new s) [ ok n ↦ ok n | err e ↦ panic | panic ↦ panic ]

-- A text within the cap is taken as it is.
pub new_short {κ} :
    {E : Type κ} (s : Bytes) → length s ≤ max_len → new {E = E} s ≡ ok (record { text = s })
unfolding new
new_short s h = ground arith

-- The scalar that Φ commits to.
unfoldable pub to_scalar_bytes : ⦃c : Crypto⦄ → FriendlyName → Bytes
to_scalar_bytes ⦃c⦄ n = c.sha256 n.text
