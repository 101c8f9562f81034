-- ===== src/Lib.antt =====
-- Verification of the deterministic core of Chronolog DB: the control store, which keeps the candidates,
-- the attestations and the total order of transactions; the capability package, which decides who may
-- author, validate and read, and which reduces the log of capabilities; the canonical encoding and the
-- messages of the protocol in it; the kernels, the arithmetic that transactions may use; and the
-- registry that watches the continuity of feeds.
--
-- The program's parts and how they interact. Replicas exchange signed messages over feeds. A replica puts
-- what it receives into its control store (packages/control-store): candidates with their order keys,
-- attestations and heartbeats of validators. The capability package (packages/capabilities) evaluates
-- whether the attestations of a candidate satisfy its validation policy; on its answer the control
-- store moves the candidate to `admissible` and inserts it into the order. Watermarks, computed
-- from heartbeats, tell below which timestamp no further transaction can be admitted.
--
-- The files:
--   Prelude: shared names and helpers (Boolean tests, lists, equality tests, comparators, insertion-ordered
--     maps, stable sorting, sublists, distinct elements).
--   Bytes: byte strings, from packages/canonical/src/bytes.ts.
--   Canonical: errors.ts and the texts of bytes.ts of packages/canonical/src. Fixed is fixed.ts; Cbor is
--     the encoder of cbor.ts and Cbor/Decode its decoder. The other modules below Cbor say which values
--     the decoder can give back and prove that it does: Heads, Bignums, Scalars and Leaves for
--     the values without parts, KeyOrder and Maps for the order of entries, Parts and Containers for
--     arrays and maps, RoundTrip for all values; InOrder, Sorted and Arranged are about values whose entries
--     the encoder has to sort. Hash is hash.ts.
--   OrderKey: order keys and compareTransactionOrder of packages/protocol/src/messages.ts.
--   Protocol: protocol errors, and the messages that the capability package reads. Schema is schema.ts with
--     the error codes of cbor.ts, Primitives is primitives.ts of packages/protocol/src. Messages is
--     messages.ts, with the codecs of its messages in Codec, Transaction and Envelope; RoundTrip,
--     Manifest and OrderKeys prove what they promise.
--   ControlStore: packages/control-store/src. Types is types.ts; State has the fields of the class, its
--     persistence, snapshot, persist and the delta log; Insert is insertOrder; Same has the comparisons of
--     stored values; Candidates has the methods on candidates and attestations, and
--     Transitions those that change the state of a candidate; Heads those on
--     heartbeats, cutoffs, heads, checkpoints, reopenings and changesSince; Watermark and Settlement
--     the queries of those names; Restore the constructor and the restoring of a snapshot. Order, Log,
--     Queries and the modules below Watermark, Settlement and Restore prove what each promises.
--     Commands makes the public methods that change the store commands, and proves what every
--     sequence of them keeps: Effect is the relation of what one command can do, Invariant, Progress,
--     Monotone and Agreement build on it.
--   Capabilities: packages/capabilities/src. Types is types.ts, Policy is policy.ts, Activity has the
--     queries of reducer.ts, Admission is admission.ts, Codec is codec.ts, Reducer the revisions of
--     the capability log of reducer.ts with Genesis, its first snapshot, and Digest, that of a snapshot;
--     Recovery is recovery.ts. History and Floors, over Endures, Stages, Validators and Added, say what a
--     revision keeps, Threshold, Accepted and Effect what a recovery takes and does.
--   Kernels: packages/kernels/src, the arithmetic of transactions. Int64 is int64.ts (Exact says what each
--     operation has to compute, over Range and Results), Decimal is decimal.ts
--     (Modes says what each rounding mode asks), Vector is vector.ts.
--   NodeCore: packages/node-core/src. FeedForks is feed-forks.ts, which accepts the records of feeds,
--     quarantines a forked feed; RepairPlan has the plan of a repair and its application, Restore the
--     restoring constructor.
--
-- How the state and the operations correspond. A method is a function of the store that returns a result
-- and the next store; what it throws is an error of the result, and the store is the one that the
-- method leaves then. A JavaScript Map is a list of entries in insertion order, keyed by the bytes
-- whose base64url or hexadecimal text the code uses as key, since these texts determine the bytes. Copies
-- made by `structuredClone` or `copyBytes` are the values themselves. `sort` is stable and is an
-- insertion sort. A `bigint` that the protocol keeps unsigned is a natural number, any other one an
-- integer of Prelude.Int; a 64-bit integer that would leave its range is an error in the code, so
-- nothing wraps around.
--
-- Bounds and fuel. The binary search of insertOrder runs on fuel, the length of the order, which is
-- enough since each turn shortens the interval; the proof that an insertion succeeds shows it. The decoder
-- counts the depth down from its limit, as the code counts it up to there. The octets of a bignum are
-- taken on fuel, the number itself, which is enough since each turn divides it by 256. All other loops
-- are recursions on a list.
--
-- Parameters. The evaluator of evaluateAdmission, the comparison of texts by `sort()` in settlement
-- evidence and the faults of a persistence are arguments; so are, for the snapshots of feeds, the orders of
-- texts by `localeCompare` and by `sort()`. The encoding of texts in UTF-8 (TextCodec), SHA-256 and the
-- verification of an Ed25519 signature (Crypto) are arguments, of which no law is used, and so is
-- the codec of the programs of transactions (ProgramCodec), which is packages/protocol/src/sql.ts.
--
-- The order of map keys in Cbor is that of the code, by length and then bytewise, which differs from the
-- bytewise order of RFC 8949 that docs/design.md prescribes.
--
-- Not modelled: the flush of a pending snapshot with which the load of a persistence begins; the JSON encoding of a snapshot and its files, the making of keys and signatures, the SQL
-- programs of transactions, the texts of numbers in the kernels, and the packages around the core
-- (transport, rpc, SQL compiler, materializers, applications): they are input and output, calls of
-- WebCrypto, or wait for a later extension.
mod Prelude
pub mod Bytes
pub mod Canonical
pub mod OrderKey
pub mod Protocol
pub mod ControlStore
pub mod Capabilities
pub mod Kernels
pub mod NodeCore
