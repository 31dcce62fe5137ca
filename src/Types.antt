-- ===== src/Types.antt =====
-- core/types.rs. The newtypes over byte arrays (Nullifier, Commitment, BlindingKey, MasterSecret,
-- ChildRandomness) are their bytes; the names and the anonymity set are in the modules below.
pub mod Name
pub mod FriendlyName
pub mod AnonymitySet
use veiled.Prelude.{ℕ, Bytes}

abbrev pub Nullifier : Type 0
Nullifier = Bytes

abbrev pub Commitment : Type 0
Commitment = Bytes

abbrev pub BlindingKey : Type 0
BlindingKey = Bytes

abbrev pub MasterSecret : Type 0
MasterSecret = Bytes

abbrev pub ChildRandomness : Type 0
ChildRandomness = Bytes

-- `u8::MAX`
abbrev pub max_len : ℕ
max_len = 255

-- The text of the error names the length of the input and the cap.
pub record TooLong : Type 0 where
  pub bytes : ℕ
  pub max : ℕ
