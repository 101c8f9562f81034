-- ===== src/Protocol/Messages/Codec.antt =====
-- The codecs of attestations and heartbeats in packages/protocol/src/messages.ts.
use chronolog_db.Prelude.{some, [], ◌∷◌, ltb, nat_eq, String_eq}
use chronolog_db.Bytes.{Bytes}
use chronolog_db.Canonical.{TextCodec}
use chronolog_db.Canonical.Cbor.{CborValue, CborEntries, cbor_bytes}
use chronolog_db.Protocol.{
  Outcome, returned, ◌>>=◌, ◌>>◌, protocol_invariant, schema_invalid, ValidatorAttestation,
}
use chronolog_db.Protocol.Schema.{
  unsigned, integer_map, required, expect_map, expect_bytes, expect_sized_bytes, expect_uint64,
  expect_version, assert_known_integer_keys, encode, assert_canonical,
}
use chronolog_db.Protocol.Messages.{ValidatorHeartbeat}

unfoldable pub attestation_fields : ValidatorAttestation → CborValue
unfolding integer_map
attestation_fields value = integer_map (
    (0, some (unsigned 1))
    ∷ (1, some (cbor_bytes value.group_id))
    ∷ (2, some (cbor_bytes value.membership_revision))
    ∷ (3, some (cbor_bytes value.validator_capability))
    ∷ (4, some (cbor_bytes value.tx_id))
    ∷ (5, some (cbor_bytes value.validator_id))
    ∷ (6, some (unsigned value.author_timestamp_ms))
    ∷ (7, some (unsigned value.accepted_above_ms))
    ∷ (8, some (cbor_bytes value.candidate_digest))
    ∷ (9, some (unsigned 1))
    ∷ (10, some (unsigned value.policy_version))
    ∷ [])

unfoldable pub attestation_to_cbor : ValidatorAttestation → Outcome CborValue
unfolding attestation_fields
attestation_to_cbor value =
    protocol_invariant (ltb value.accepted_above_ms value.author_timestamp_ms) schema_invalid
    >> returned (attestation_fields value)

unfoldable read_attestation : CborEntries → Outcome ValidatorAttestation
unfolding required
read_attestation fields = do
  decision_value ← required fields 9
  decision ← expect_uint64 decision_value
  protocol_invariant (nat_eq decision 1) schema_invalid
  timestamp ← required fields 6
  author_timestamp_ms ← expect_uint64 timestamp
  cutoff ← required fields 7
  accepted_above_ms ← expect_uint64 cutoff
  protocol_invariant (ltb accepted_above_ms author_timestamp_ms) schema_invalid
  group ← required fields 1
  group_id ← expect_bytes group
  membership ← required fields 2
  membership_revision ← expect_bytes membership
  capability_value ← required fields 3
  validator_capability ← expect_bytes capability_value
  transaction ← required fields 4
  tx_id ← expect_bytes transaction
  validator ← required fields 5
  validator_id ← expect_bytes validator
  digest ← required fields 8
  candidate_digest ← expect_sized_bytes digest 32
  policy ← required fields 10
  policy_version ← expect_uint64 policy
  returned (record {
    group_id = group_id;
    membership_revision = membership_revision;
    validator_capability = validator_capability;
    tx_id = tx_id;
    validator_id = validator_id;
    author_timestamp_ms = author_timestamp_ms;
    accepted_above_ms = accepted_above_ms;
    candidate_digest = candidate_digest;
    policy_version = policy_version;
  })

unfoldable pub heartbeat_to_cbor : ValidatorHeartbeat → CborValue
unfolding integer_map
heartbeat_to_cbor value = integer_map (
    (0, some (unsigned 1))
    ∷ (1, some (cbor_bytes value.group_id))
    ∷ (2, some (cbor_bytes value.membership_revision))
    ∷ (3, some (cbor_bytes value.validator_capability))
    ∷ (4, some (cbor_bytes value.validator_id))
    ∷ (5, some (unsigned value.acceptance_cutoff_ms))
    ∷ [])

unfoldable read_heartbeat : CborEntries → Outcome ValidatorHeartbeat
unfolding required
read_heartbeat fields = do
  group ← required fields 1
  group_id ← expect_bytes group
  membership ← required fields 2
  membership_revision ← expect_bytes membership
  capability_value ← required fields 3
  validator_capability ← expect_bytes capability_value
  validator ← required fields 4
  validator_id ← expect_bytes validator
  cutoff ← required fields 5
  acceptance_cutoff_ms ← expect_uint64 cutoff
  returned (record {
    group_id = group_id;
    membership_revision = membership_revision;
    validator_capability = validator_capability;
    validator_id = validator_id;
    acceptance_cutoff_ms = acceptance_cutoff_ms;
  })

module _ (codec : TextCodec) where
  unfoldable pub encode_validator_attestation : ValidatorAttestation → Outcome Bytes
  unfolding attestation_to_cbor encode
  encode_validator_attestation value = attestation_to_cbor value >>= encode codec

  unfoldable pub decode_validator_attestation : Bytes → Outcome ValidatorAttestation
  unfolding assert_canonical assert_known_integer_keys expect_version read_attestation
  decode_validator_attestation bytes = do
    value ← assert_canonical codec bytes
    fields ← expect_map value
    assert_known_integer_keys fields (0 ∷ 1 ∷ 2 ∷ 3 ∷ 4 ∷ 5 ∷ 6 ∷ 7 ∷ 8 ∷ 9 ∷ 10 ∷ [])
    expect_version fields 1
    read_attestation fields

  unfoldable pub encode_validator_heartbeat : ValidatorHeartbeat → Outcome Bytes
  unfolding heartbeat_to_cbor encode
  encode_validator_heartbeat value = encode codec (heartbeat_to_cbor value)

  unfoldable pub decode_validator_heartbeat : Bytes → Outcome ValidatorHeartbeat
  unfolding assert_canonical assert_known_integer_keys expect_version read_heartbeat
  decode_validator_heartbeat bytes = do
    value ← assert_canonical codec bytes
    fields ← expect_map value
    assert_known_integer_keys fields (0 ∷ 1 ∷ 2 ∷ 3 ∷ 4 ∷ 5 ∷ [])
    expect_version fields 1
    read_heartbeat fields
