-- ===== src/Lib.antt =====
-- Veiled: anonymous payment identities over anonymity sets, the Rust crate `veiled`. A registry
-- collects merchants and the commitments of beneficiaries and anchors a set on the chain; a
-- beneficiary proves to a merchant, once, that it is a member, under a pseudonym and a nullifier that
-- belong to this merchant only; later it authenticates its payment requests with Schnorr proofs.
--
-- The parts, and the files that model them:
--   * src/core/types.rs, utils.rs: the names and the anonymity set in Types, the tagged generators, the
--     Pedersen commitment and the challenges in Utils. A newtype over a byte array is its bytes.
--   * src/core/merchant.rs: Merchant (`Merchant::new`), Merchant/Receive
--     (`receive_payment_registration`).
--   * src/core/crs.rs: Crs (`Crs::setup`, `commit_master_identity`), Crs/Codec (`to_bytes`,
--     `from_bytes`) with Crs/RoundTrip.
--   * src/core/nullifier.rs, request.rs, credential.rs: Nullifier, Request, Credential, with
--     Request/Complete and Credential/Phi.
--   * src/core/payment_identity.rs: the types in Proof, the bytes in Proof/Codec and Proof/RoundTrip,
--     the prover in PaymentIdentity/Poly and PaymentIdentity/Prove, the verifier in
--     PaymentIdentity/Verify. The other files of PaymentIdentity carry the proofs: PolyLaws (products
--     of linear polynomials), BitChecks, Others, Membership, Opening (the checks of the verifier one
--     by one), Decoded, Completeness, Honest, Soundness, Panics.
--   * src/core/beneficiary.rs: Beneficiary (`new`, `register`, `create_payment_registration`), with
--     Beneficiary/Register.
--   * src/core/verifier.rs: Verifier (`VerifierState`, `verify_and_register`), one call in
--     Verifier/Register, an honest one in Verifier/Complete, all sequences of calls in
--     Verifier/Consistent and Verifier/Sybil.
--   * src/core/registry.rs: Registry, its Merkle tree in Registry/Merkle, with Registry/Lifecycle and
--     Registry/Anchor.
--   * src/registry/wallet.rs, store.rs, service.rs: Service/Wallet and Service/Funding (the steps over
--     BDK), Service/Store, Service/Handlers, with Service/Padding, Service/Bounds (each handler), Service/History (all
--     sequences of handlers), Service/Enrol (the registration of a merchant) and Service/Finalize.
--   * src/core/tx.rs: Tx (`build_tree_with_fee`, `aggregate_keys`), with Tx/Conserve and Tx/Order.
--   * src/client.rs: Client (`MerchantState`), Client/Requests (the calls of the registry), with
--     Client/Order and Client/Finalized.
--   * src/registry/db.rs: Db (the tables, `open_db` and the writes), Db/Read (`load_state`). Db/Keys has
--     the constraints and the histories, Db/Invariant what the writes keep, Db/Load, Db/First,
--     Db/Members and Db/Sets what is read back, and Db/Scans what does not depend on the order of
--     rows; Service/Persist has the table that the statements of the store leave.
--   * src/bin/veiled_core.rs: Commands/Json (parameters and responses), Commands/Handlers, and
--     Commands/Dispatch (`dispatch` and `main`). Commands/Hexes, Registration, Payment, Credential
--     follow values from one command to the next, Commands/Daemon the loop. Request/Address has
--     `pseudonym_to_address`.
--   * src/bin/veiled_wallet.rs: Wallets/Bdk (the state and the interfaces), Wallets/Io (the files and
--     the saves), Wallets/Sync (`recreate_wallet`, `sync_wallet`), Wallets/Json, Wallets/Handlers and
--     Wallets/Dispatch. Wallets/Kept, History, Addresses, Scan, Steps and Create carry the
--     proofs.
--   * Flow composes the parts: from a finalized set to a registration that a merchant has received.
--   * Prelude has the lists, numbers, results, maps and sets that the parts share, Examples the
--     concrete inputs on which the theorems are applied.
--
-- How the parts meet: the handlers of the service change the store and the registry; `finalize_set`
-- sets up the CRS, computes the root and stores the set under the id of the commitment transaction,
-- from where `get_crs` and `get_anonymity_set` serve it. A beneficiary takes both, proves with
-- PaymentIdentity/Prove and hands the registration to a merchant, who verifies it with
-- PaymentIdentity/Verify, through Merchant/Receive or Verifier.
--
-- How code is modelled:
--   * State is a record that a method returns with its result. A method that returns `Result` has an
--     Outcome: ok, err, or panic for the `expect`, `unwrap` and indexing of the source. A message is a
--     constructor; its text and logging are left out.
--   * Numbers are natural; u16, u32 and u64 wrap as the source casts them (`% 2 ^ w`). The lengths of
--     byte arrays are hypotheses where they matter (`IsSized` of Proof/RoundTrip).
--   * M, the logarithm of the size of a set, comes from the environment of the build; it is the
--     argument `dim`, and N is 2 ^ dim.
--   * Random values (secrets, nonces, keys) are arguments.
--   * The curve, its scalars and SHA-256 are the interface Crypto, with the laws of a group, of its
--     scalars and of the encodings in Crypto/Laws. Crypto/Toy is a small instance of the laws.
--     Bitcoin has the operations of the crates bitcoin, secp256k1 and bdk_wallet and of the node,
--     without laws.
--   * hex and serde_json are the interfaces Hex (decoding an encoded text gives it back) and Serde of
--     Commands/Json (no laws). SQLite runs statements as it documents: a row whose primary key is taken is ignored
--     by INSERT OR IGNORE, a missing foreign key fails the statement, and ORDER BY compares integers
--     as signed and text by bytes; a SELECT without it reads in any order, the instance Scan of
--     Db/Read. In Db storage does not fail; a Db of Service/Store may fail any statement, and keeps
--     those that it has run.
--   * The files of veiled_wallet are the texts by path; two paths are two files. BDK and bip39 are the
--     interface Bdk of Wallets/Bdk, with what they document of addresses in BdkLaws. A read of
--     a file that is there may fail. The node and the disk do not change during one command; they are an argument of each.
--   * Loops over lists and ranges are structural (Crypto/Loops). `next_power_of_two` has as fuel the
--     number n, since 2 ^ n is at least n; the loop over the levels of the tree has as fuel the number
--     of leaves, and each level halves it.
--
-- Not modelled: the hex and JSON text itself, display code, gRPC and sockets, the wait of a subscriber for a set,
-- the signing of the tree, src/bin/registry_grpc.rs and the user
-- interface. Computational soundness and
-- anonymity are properties of the curve and the hash and not of this code.
pub mod Beneficiary
pub mod Bitcoin
pub mod Client
pub mod Commands
pub mod Credential
pub mod Crs
pub mod Crypto
pub mod Db
pub mod Examples
pub mod Flow
pub mod Hex
pub mod Merchant
pub mod Nullifier
pub mod PaymentIdentity
pub mod Prelude
pub mod Proof
pub mod Registry
pub mod Request
pub mod Service
pub mod Tx
pub mod Types
pub mod Utils
pub mod Verifier
pub mod Wallets
