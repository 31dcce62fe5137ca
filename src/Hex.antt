-- ===== src/Hex.antt =====
-- The crate hex, which bin/veiled_core.rs and registry/db.rs call.
use veiled.Prelude.{◌≡◌, Option, some, Bytes}

-- What `hex::encode` encodes, `hex::decode` decodes.
pub record Hex : Type 0 where
  pub encode : Bytes → Bytes
  pub decode : Bytes → Option Bytes
  pub decode-encode : (b : Bytes) → decode (encode b) ≡ some b
