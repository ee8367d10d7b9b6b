-- ===== src/Lib.antt =====
-- The off-chain TypeScript of the ILR module: the cryptographic SDK (sdk), its error handling
-- (sdk/security) and the event handlers of the subgraph (subgraph/src).
--
-- Parts, and where they are modelled:
--
-- * Shamir (sdk/shamir.ts), secret sharing over GF(2^8). Shamir.Gf256 has the constructor's tables
--   and the field operations (gfMultiplyNoTable, gfMultiply, gfDivide, evaluatePolynomial),
--   Shamir.Scheme has split and combine, Shamir.Commitment encodeShare, decodeShare and the share
--   commitments, with the codec and the hash as parameters. A call that throws is an error of
--   Shamir.Result. The random bytes are a parameter, a function of the position of the secret byte
--   and the length. Entries, Product, Division and Equivalence prove the field's laws from the
--   tables; Bytes makes the bytes a field; Basis, Values, Dealt and RoundTrip prove the round trip;
--   Checks the checks.
-- * Bls (sdk/threshold-bls.ts), the sharing of a scalar key: bytesToBigInt, bigIntToBytes, modPow,
--   modInverse, evaluatePolynomial, computeLagrangeCoefficient, generateKeyShares and
--   reconstructSecret. The curve library is the parameter Curve (the scalar order, and the multiple
--   of the base point, which may throw), the private keys that it draws are a function. What is
--   relied on of the order is the record IsScalarOrder of Bls.Residues. Bls.Envelope has
--   encryptViewingKey and decryptViewingKey, over the cipher of Ecies.Crypto. Bls.Feldman has
--   verifyShare, over a record of the points of the curve and of the operations that may throw;
--   Bls.Signing has signPartial and aggregateSignatures, over the record Signatures of the second
--   group and of the library's sign; Bls.Warrant has createWarrantMessage. Bls.StandIn has a small
--   curve for runs.
-- * Hex models hexToBytes and bytesToHex, which sdk/shamir.ts, sdk/ecies.ts and sdk/viewing-keys.ts
--   each declare, with what parseInt does on two characters. A text is the list of its codes.
-- * Ecies (sdk/ecies.ts), the class ECIES. Ecies.Crypto is what it calls: secp256k1, HKDF, AES-GCM
--   by the Web Crypto API or by Node.js, and TextEncoder, with their documented laws; Ecies.Cipher
--   has the operations of the class, on both paths. The calls of randomBytes are numbered, and
--   Random gives the bytes of each. Ecies.StandIn has small libraries that obey the laws, for runs.
-- * Viewing (sdk/viewing-keys.ts), the class ViewingKeysSDK, which composes Shamir and Ecies.
--   Viewing.Services has JSON, IPFS and the contract as parameters; an operation returns what it
--   adds to IPFS and the transactions it sends. Viewing.Escrow has the operations; Holders,
--   Creation and Reveal follow a share from createEscrow to reconstructAndDecrypt.
-- * Interpolation models no code: Lagrange interpolation at 0 in any field, which both sharings
--   use.
-- * Security (sdk/security/errors.ts): Security.Breaker is the class CircuitBreaker, whose states
--   follow each other by the relation Step when calls overlap; Security.Retry is withRetry, with
--   the called function and the draws of Math.random() as functions of the attempt's number;
--   Security.Handler is ErrorHandler.handle, with what it logs, reports, checks and passes on as a
--   list of effects.
-- * Siem (sdk/security/boundary-siem.ts): Siem.Events has the types and the defaults of the
--   configuration, Siem.Cef the CEF formatter, Siem.Queue the class EventQueue, Siem.Post post and
--   postWithRetry, Siem.Client sendEvent and the batches, Siem.Connection connect, disconnect, the
--   socket with its reconnections, and the alerts. What fetch and the sockets do is a parameter. An
--   operation gives the client after it and its effects; Siem.Runs runs any sequence of them.
-- * Daemon (sdk/security/boundary-daemon.ts): Daemon.Audit has the audit formats, Daemon.Protocol
--   the lines of the socket and the pending requests, Daemon.Connection connect, disconnect and
--   scheduleReconnect, Daemon.Policy the policy checks and the class MockBoundaryDaemon.
--   Daemon.Pending runs any sequence of requests, data, timeouts and losses of the connection.
-- * Subgraph (subgraph/src, subgraph/schema.graphql): Subgraph.Map is the entity store (load and
--   save, as graph-node documents them), Subgraph.Schema the entities, Subgraph.Index the search
--   for the next free index. The handlers are functions from the event's block and transaction, its
--   parameters and a store to a store (of the oracle: to none where the store refuses an entity
--   without a required field, which no other handler saves): Subgraph.Ilrm (ilrm.ts, with children
--   Lifecycle, Resolution and Events), Subgraph.Treasury (treasury.ts), Subgraph.Assets
--   (assetregistry.ts), Subgraph.Oracle (oracle.ts) and Subgraph.Bridge (l3bridge.ts). `handle`
--   dispatches an event as subgraph/subgraph.yaml does, and `index_all` runs the handlers over a
--   list of events. Subgraph.Ilrm gives the helpers on parties and metrics that the other handlers
--   use as well.
-- * Prelude passes on the library's names, with Boolean tests, lists, bits and integers over the
--   native numbers. The modules called Tests hold runs at concrete inputs.
--
-- Numbers: bigints and counters are natural numbers, an i32 counter wraps at 2 ^ 32, and a count
-- that may become negative is an integer. Addresses, hashes and ids are numbers.
--
-- Fuel: gfMultiplyNoTable halves its second factor and modPow its exponent, so that these are fuel
-- enough; the two loops over numbered records find another saved record in each round, and have one
-- round more than there are records; withRetry and postWithRetry have one round for each attempt
-- that they allow, and a number has fewer decimal digits than it counts. The theorems about these
-- loops hold for the fuel that the definitions give.
--
-- Not modelled: the checks of signatures and the Solidity encodings in sdk/threshold-bls.ts; the
-- view functions of sdk/viewing-keys.ts, which pass on a call of the contract; in
-- sdk/security/boundary-siem.ts the headers of a request, queryEvents and the log helpers; in
-- sdk/security/boundary-daemon.ts the methods that send one request and return a field of its
-- answer; sdk/fido2.ts, sdk/identity-proof.ts and the configuration in sdk/security; the Solidity
-- contracts, the circuits, scripts and tests.
pub mod Prelude
pub mod Interpolation
pub mod Shamir
pub mod Bls
pub mod Security
pub mod Subgraph
pub mod Hex
pub mod Ecies
pub mod Viewing
pub mod Siem
pub mod Daemon
