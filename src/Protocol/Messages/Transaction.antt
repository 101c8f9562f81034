-- ===== src/Protocol/Messages/Transaction.antt =====
-- The codec of transactions in packages/protocol/src/messages.ts. The codec of their programs, which is that of
-- sql.ts, and SHA-256 are arguments.
use chronolog_db.Prelude.{ℕ, Option, none, some, [], ◌∷◌, String, leb, nat_eq, length, String_eq}
use chronolog_db.Prelude.Map
use chronolog_db.Prelude.Map.{Map}
use chronolog_db.Bytes.{Bytes}
use chronolog_db.Canonical.{TextCodec}
use chronolog_db.Canonical.Hash
use chronolog_db.Canonical.Hash.{transaction}
use chronolog_db.Canonical.Cbor.{
  CborValue, CborEntries, key_text, no_entries, entry, cbor_bytes, cbor_map,
}
use chronolog_db.Protocol.{
  Outcome, returned, ◌>>=◌, ◌>>◌, protocol_invariant, schema_invalid, integer_out_of_range,
  TransactionCore,
}
use chronolog_db.Protocol.Schema.{
  unsigned, as_text, wrap, integer_map, optional, required, expect_map, expect_bytes,
  expect_sized_bytes, expect_uint64, expect_version, assert_known_integer_keys, if_present, encode,
  assert_canonical,
}

-- The codec of sql.ts for the program of a transaction, and its check.
pub record ProgramCodec {ℓ} (Program : Type ℓ) : Type ℓ where
  pub assert_valid : Program → Outcome (Unit {0})
  pub to_cbor : Program → CborValue
  pub from_cbor : CborValue → Outcome Program

-- Metadata as a map with keys of text.
unfoldable pub metadata_to_cbor : Map String Bytes → CborEntries
metadata_to_cbor [] = no_entries
metadata_to_cbor ((key, value) ∷ metadata) =
    entry (key_text key) (cbor_bytes value) (metadata_to_cbor metadata)

unfoldable pub read_metadata : CborEntries → Map String Bytes → Outcome (Map String Bytes)
read_metadata no_entries result = returned result
read_metadata (entry k v es) result = do
  key ← as_text k
  item ← expect_bytes v
  read_metadata es (Map.set result key item)

unfoldable pub metadata_from_cbor : CborValue → Outcome (Map String Bytes)
unfolding read_metadata
metadata_from_cbor value = expect_map value >>= λ entries. read_metadata entries []

abbrev pub max_int64 : ℕ
max_int64 = 9223372036854775807

-- The checks of `transactionToCbor` but that of the program.
unfoldable pub check_transaction {ℓ} :
    {Program : Type ℓ} → TransactionCore Program → Outcome (Unit {0})
check_transaction value = do
  protocol_invariant (nat_eq (length value.group_id) 32) schema_invalid
  protocol_invariant (nat_eq (length value.membership_revision) 32) schema_invalid
  protocol_invariant (nat_eq (length value.validation_policy) 32) schema_invalid
  protocol_invariant (nat_eq (length value.author_id) 32) schema_invalid
  protocol_invariant (leb value.author_timestamp_ms max_int64) integer_out_of_range
  protocol_invariant (leb 16 (length value.nonce)) schema_invalid
  protocol_invariant (nat_eq (length value.execution_manifest_digest) 32) schema_invalid

abbrev pub if_metadata : Option (Map String Bytes) → Option CborValue
if_metadata none = none
if_metadata (some metadata) = some (cbor_map (metadata_to_cbor metadata))

module _ {ℓ} {Program : Type ℓ} (programs : ProgramCodec Program) where
  unfoldable pub transaction_fields : TransactionCore Program → CborValue
  unfolding integer_map metadata_to_cbor
  transaction_fields value = integer_map (
      (0, some (unsigned 1))
      ∷ (1, some (cbor_bytes value.group_id))
      ∷ (2, some (cbor_bytes value.membership_revision))
      ∷ (3, some (cbor_bytes value.validation_policy))
      ∷ (4, some (cbor_bytes value.author_id))
      ∷ (5, some (unsigned value.author_timestamp_ms))
      ∷ (6, some (cbor_bytes value.nonce))
      ∷ (7, some (cbor_bytes value.execution_manifest_digest))
      ∷ (8, some (programs.to_cbor value.program))
      ∷ (9, if_metadata value.metadata)
      ∷ [])

  unfoldable pub transaction_to_cbor : TransactionCore Program → Outcome CborValue
  unfolding check_transaction transaction_fields
  transaction_to_cbor value = do
    check_transaction value
    programs.assert_valid value.program
    returned (transaction_fields value)

  unfoldable pub read_transaction : CborEntries → Outcome (TransactionCore Program)
  unfolding required optional metadata_from_cbor
  read_transaction fields = do
    timestamp ← required fields 5
    author_timestamp_ms ← expect_uint64 timestamp
    protocol_invariant (leb author_timestamp_ms max_int64) integer_out_of_range
    nonce_value ← required fields 6
    nonce ← expect_bytes nonce_value
    protocol_invariant (leb 16 (length nonce)) schema_invalid
    program_value ← required fields 8
    program ← programs.from_cbor program_value
    programs.assert_valid program
    group ← required fields 1
    group_id ← expect_sized_bytes group 32
    membership ← required fields 2
    membership_revision ← expect_sized_bytes membership 32
    policy ← required fields 3
    validation_policy ← expect_sized_bytes policy 32
    author ← required fields 4
    author_id ← expect_sized_bytes author 32
    digest ← required fields 7
    execution_manifest_digest ← expect_sized_bytes digest 32
    metadata ← if_present metadata_from_cbor (optional fields 9)
    returned (record {
      group_id = group_id;
      membership_revision = membership_revision;
      validation_policy = validation_policy;
      author_id = author_id;
      author_timestamp_ms = author_timestamp_ms;
      nonce = nonce;
      execution_manifest_digest = execution_manifest_digest;
      program = program;
      metadata = metadata;
    })

  module _ (codec : TextCodec) where
    unfoldable pub encode_transaction_core : TransactionCore Program → Outcome Bytes
    unfolding transaction_to_cbor encode
    encode_transaction_core value = transaction_to_cbor value >>= encode codec

    unfoldable pub decode_transaction_core : Bytes → Outcome (TransactionCore Program)
    unfolding assert_canonical assert_known_integer_keys expect_version read_transaction
    decode_transaction_core bytes = do
      value ← assert_canonical codec bytes
      fields ← expect_map value
      assert_known_integer_keys fields (0 ∷ 1 ∷ 2 ∷ 3 ∷ 4 ∷ 5 ∷ 6 ∷ 7 ∷ 8 ∷ 9 ∷ [])
      expect_version fields 1
      read_transaction fields

    -- `transactionDigest` of a transaction; `digest_bytes` is that of its bytes.
    unfoldable pub digest_bytes : (Bytes → Bytes) → Bytes → Outcome Bytes
    unfolding Hash.hash_domain
    digest_bytes sha256 bytes = wrap (Hash.hash_domain codec sha256 transaction bytes)

    unfoldable pub transaction_digest : (Bytes → Bytes) → TransactionCore Program → Outcome Bytes
    unfolding encode_transaction_core digest_bytes
    transaction_digest sha256 value = encode_transaction_core value >>= digest_bytes sha256
