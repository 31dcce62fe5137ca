-- ===== src/Examples/Data.antt =====
-- Two merchants, a CRS for sets of two identities, and two credentials.
use veiled.Prelude.{ℕ, List, [], ◌∷◌, Bytes, codes, replicate}
use veiled.Crypto.Toy.{unit, two, toy}
use veiled.Merchant.{Merchant}
use veiled.Crs.{Crs, setup}
use veiled.Credential.{MasterCredential}
use veiled.Credential.Phi.{credential_of}
use veiled.PaymentIdentity.Prove.{Nonces}

abbrev pub merchant_of : Bytes → ℕ → Merchant
merchant_of name id = record {
  name = record { text = name };
  credential_generator = replicate 33 2;
  origin = name;
  merchant_id = id;
  registered_identities = [];
}

abbrev pub cafe : Merchant
cafe = merchant_of (codes "cafe") 2

abbrev pub two_merchants : List Merchant
two_merchants = merchant_of (codes "shop") 1 ∷ cafe ∷ []

abbrev pub crs : Crs
crs = setup two_merchants 2

abbrev pub alice : MasterCredential
alice = credential_of crs (1 ∷ []) (2 ∷ []) (3 ∷ []) (record { text = codes "alice" })

abbrev pub bob : MasterCredential
bob = credential_of crs (5 ∷ []) (7 ∷ []) (9 ∷ []) (record { text = codes "bob" })

abbrev pub anonymity_set : List Bytes
anonymity_set = alice.phi ∷ bob.phi ∷ []

abbrev pub set_id : Bytes
set_id = 42 ∷ []

abbrev pub nonces : Nonces
nonces = record {
  a = λ k. unit;
  r_a = two;
  r_b = unit;
  r_c = two;
  r_d = unit;
  rho = λ i k. two;
  schnorr_nonce = two;
}
