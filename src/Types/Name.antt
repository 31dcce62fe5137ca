-- ===== src/Types/Name.antt =====
-- `Name` of core/types.rs: the name of a merchant, at most 255 bytes.
use veiled.Prelude.{
  ◌<◌, ◌≤◌, ◌≡◌, arith, Bytes, length, ltb, Outcome, ok, err, panic, if◌then◌else◌,
}
use veiled.Types.{max_len, TooLong}

pub record Name : Type 0 where
  pub text : Bytes

unfoldable pub try_new : Bytes → Outcome TooLong Name
try_new s =
    if ltb max_len (length s)
    then err (record { bytes = length s; max = max_len })
    else ok (record { text = s })

-- `try_new(s).expect(…)`
unfoldable pub new {κ} : {E : Type κ} → Bytes → Outcome E Name
unfolding try_new
new s = elim (try_new s) [ ok n ↦ ok n | err e ↦ panic | panic ↦ panic ]

-- A text within the cap is taken as it is.
pub new_short {κ} :
    {E : Type κ} (s : Bytes) → length s ≤ max_len → new {E = E} s ≡ ok (record { text = s })
unfolding new
new_short s h = ground arith

pub new_long {κ} : {E : Type κ} (s : Bytes) → max_len < length s → new {E = E} s ≡ panic
unfolding new
new_long s h = ground arith

pub try_new_short : (s : Bytes) → length s ≤ max_len → try_new s ≡ ok (record { text = s })
unfolding try_new
try_new_short s h = ground arith
