-- ===== src/Capabilities/Codec/Recovery.antt =====
-- Recovery payloads and records in packages/capabilities/src/codec.ts.
use chronolog_db.Prelude.{Bool, true, not, ◌&&◌, some, List, [], ◌∷◌, map, ltb, nat_eq, length, any}
use chronolog_db.Bytes.{Bytes}
use chronolog_db.Canonical.{TextCodec}
use chronolog_db.Canonical.Cbor.{
  CborValue, CborEntries, cbor_text, cbor_bytes, cbor_boolean, cbor_array,
}
use chronolog_db.Protocol.{
  Outcome, returned, thrown, ◌>>=◌, ◌>>◌, protocol_invariant, schema_invalid,
}
use chronolog_db.Protocol.Schema.{
  integer_map, optional, required, expect_map, expect_array, expect_bytes, expect_sized_bytes,
  expect_string, expect_uint64, expect_version, assert_known_integer_keys, traverse, if_present,
  from_list, encode, assert_canonical, unsigned,
}
use chronolog_db.Capabilities.Types.{validator, RecoveryPayload, RecoverySignature, RecoveryRecord}
use chronolog_db.Capabilities.Activity.{same_role}
use chronolog_db.Capabilities.Codec.{if_some, is_some, grant_to_cbor, grant_from_cbor}
use chronolog_db.Capabilities.Codec.Revision.{are_alike}

unfoldable check_recovery : RecoveryPayload → Outcome (Unit {0})
unfolding same_role
check_recovery value = do
  protocol_invariant (ltb value.last_revision value.new_revision) schema_invalid
  protocol_invariant (nat_eq (length value.new_root_public_key) 32) schema_invalid
  protocol_invariant (are_alike value.reopen_history (is_some value.reopening_reason))
      schema_invalid
  protocol_invariant
      (not (any (λ grant. not (same_role grant.role validator)) value.validator_grants))
      schema_invalid

unfoldable pub recovery_to_cbor : RecoveryPayload → Outcome CborValue
unfolding check_recovery grant_to_cbor integer_map
recovery_to_cbor value = do
  check_recovery value
  grants ← traverse grant_to_cbor value.validator_grants
  returned (
      integer_map (
        (0, some (unsigned 1))
        ∷ (1, some (cbor_bytes value.group_id))
        ∷ (2, some (unsigned value.last_revision))
        ∷ (3, some (cbor_bytes value.last_revision_digest))
        ∷ (4, some (unsigned value.new_revision))
        ∷ (5, some (cbor_bytes value.new_root_public_key))
        ∷ (6, some (cbor_bytes value.new_capability_log_feed))
        ∷ (7, some (cbor_array (from_list grants)))
        ∷ (8, some (cbor_boolean value.reopen_history))
        ∷ (9, if_some cbor_text value.reopening_reason)
        ∷ []))

abbrev expect_flag : CborValue → Outcome Bool
expect_flag (cbor_boolean b) = returned b
expect_flag _ = thrown schema_invalid

-- The fields of a payload, before its checks.
unfoldable read_recovery : CborEntries → Outcome RecoveryPayload
unfolding required optional grant_from_cbor
read_recovery fields = do
  group ← required fields 1
  group_id ← expect_bytes group
  last ← required fields 2
  last_revision ← expect_uint64 last
  digest ← required fields 3
  last_revision_digest ← expect_sized_bytes digest 32
  new ← required fields 4
  new_revision ← expect_uint64 new
  root ← required fields 5
  new_root_public_key ← expect_sized_bytes root 32
  feed ← required fields 6
  new_capability_log_feed ← expect_bytes feed
  grants_value ← required fields 7
  grants ← expect_array grants_value
  validator_grants ← traverse grant_from_cbor grants
  flag ← required fields 8
  reopen_history ← expect_flag flag
  reopening_reason ← if_present expect_string (optional fields 9)
  returned (record {
    group_id = group_id;
    last_revision = last_revision;
    last_revision_digest = last_revision_digest;
    new_revision = new_revision;
    new_root_public_key = new_root_public_key;
    new_capability_log_feed = new_capability_log_feed;
    validator_grants = validator_grants;
    reopen_history = reopen_history;
    reopening_reason = reopening_reason;
  })

unfoldable read_signature : CborValue → Outcome RecoverySignature
unfolding assert_known_integer_keys required
read_signature value = do
  fields ← expect_map value
  assert_known_integer_keys fields (0 ∷ 1 ∷ [])
  index ← required fields 0
  recovery_key_index ← expect_uint64 index
  signed ← required fields 1
  signature ← expect_sized_bytes signed 64
  returned (record { recovery_key_index = recovery_key_index; signature = signature })

-- The indices of the signatures increase.
unfoldable are_increasing : List RecoverySignature → Bool
are_increasing [] = true
are_increasing (a ∷ []) = true
are_increasing (a ∷ b ∷ more) =
    ltb a.recovery_key_index b.recovery_key_index && are_increasing (b ∷ more)

unfoldable signature_fields : RecoverySignature → CborValue
unfolding integer_map
signature_fields s =
    integer_map
      ((0, some (unsigned s.recovery_key_index)) ∷ (1, some (cbor_bytes s.signature)) ∷ [])

module _ (codec : TextCodec) where
  unfoldable pub encode_recovery_payload : RecoveryPayload → Outcome Bytes
  unfolding recovery_to_cbor encode
  encode_recovery_payload value = recovery_to_cbor value >>= encode codec

  unfoldable pub decode_recovery_payload : Bytes → Outcome RecoveryPayload
  unfolding assert_canonical assert_known_integer_keys expect_version read_recovery recovery_to_cbor
  decode_recovery_payload bytes = do
    value ← assert_canonical codec bytes
    fields ← expect_map value
    assert_known_integer_keys fields (0 ∷ 1 ∷ 2 ∷ 3 ∷ 4 ∷ 5 ∷ 6 ∷ 7 ∷ 8 ∷ 9 ∷ [])
    expect_version fields 1
    payload ← read_recovery fields
    recovery_to_cbor payload
    returned payload

  unfoldable pub encode_recovery_record : RecoveryRecord → Outcome Bytes
  unfolding encode_recovery_payload signature_fields integer_map encode
  encode_recovery_record value = do
    payload ← encode_recovery_payload value.payload
    encode codec (
        integer_map (
          (0, some (unsigned 1))
          ∷ (1, some (cbor_bytes payload))
          ∷ (2, some (cbor_array (from_list (map signature_fields value.signatures))))
          ∷ []))

  unfoldable pub decode_recovery_record : Bytes → Outcome RecoveryRecord
  unfolding assert_canonical assert_known_integer_keys expect_version read_signature are_increasing
      decode_recovery_payload required
  decode_recovery_record bytes = do
    value ← assert_canonical codec bytes
    fields ← expect_map value
    assert_known_integer_keys fields (0 ∷ 1 ∷ 2 ∷ [])
    expect_version fields 1
    signatures_value ← required fields 2
    encoded_signatures ← expect_array signatures_value
    signatures ← traverse read_signature encoded_signatures
    protocol_invariant (ltb 0 (length signatures)) schema_invalid
    protocol_invariant (are_increasing signatures) schema_invalid
    encoded ← required fields 1
    bytes' ← expect_bytes encoded
    payload ← decode_recovery_payload bytes'
    returned (record { payload = payload; signatures = signatures })
