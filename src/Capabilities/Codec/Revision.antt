-- ===== src/Capabilities/Codec/Revision.antt =====
-- Capability revisions in packages/capabilities/src/codec.ts.
use chronolog_db.Prelude.{Bool, true, false, not, some, [], ◌∷◌, map, ltb, nat_eq, length}
use chronolog_db.Bytes.{Bytes}
use chronolog_db.Canonical.{TextCodec}
use chronolog_db.Canonical.Cbor.{CborValue, CborEntries, cbor_bytes, cbor_array}
use chronolog_db.Protocol.{Outcome, returned, ◌>>=◌, ◌>>◌, protocol_invariant, schema_invalid}
use chronolog_db.Protocol.Schema.{
  integer_map, optional, required, expect_map, expect_array, expect_bytes, expect_sized_bytes,
  expect_uint64, expect_version, assert_known_integer_keys, traverse, if_present, from_list, encode,
  assert_canonical, unsigned,
}
use chronolog_db.Capabilities.Types.{CapabilityRevision, SignedCapabilityRevision}
use chronolog_db.Capabilities.Codec.{
  if_some, is_some, grant_to_cbor, grant_from_cbor, policy_to_cbor, policy_from_cbor,
}

-- Both are there, or neither is.
abbrev pub are_alike : Bool → Bool → Bool
are_alike true b = b
are_alike false b = not b

unfoldable check_revision : CapabilityRevision → Outcome (Unit {0})
check_revision value = do
  protocol_invariant (ltb 0 value.revision) schema_invalid
  protocol_invariant (nat_eq (length value.issuer_root_public_key) 32) schema_invalid
  protocol_invariant
      (are_alike (is_some value.successor_root_public_key)
        (is_some value.successor_capability_log_feed))
      schema_invalid

unfoldable pub revision_to_cbor : CapabilityRevision → Outcome CborValue
unfolding check_revision grant_to_cbor policy_to_cbor integer_map
revision_to_cbor value = do
  check_revision value
  grants ← traverse grant_to_cbor value.grants
  policies ← traverse policy_to_cbor value.validation_policies
  returned (
      integer_map (
        (0, some (unsigned 1))
        ∷ (1, some (cbor_bytes value.group_id))
        ∷ (2, some (unsigned value.revision))
        ∷ (3, some (cbor_bytes value.previous_revision_digest))
        ∷ (4, some (cbor_bytes value.issuer_root_public_key))
        ∷ (5, some (cbor_array (from_list grants)))
        ∷ (6, some (cbor_array (from_list (map cbor_bytes value.revocations))))
        ∷ (7, some (cbor_array (from_list policies)))
        ∷ (8, if_some cbor_bytes value.successor_root_public_key)
        ∷ (9, if_some cbor_bytes value.successor_capability_log_feed)
        ∷ []))

-- The fields of a revision, before its checks.
unfoldable read_revision : CborEntries → Outcome CapabilityRevision
unfolding required optional grant_from_cbor policy_from_cbor
read_revision fields = do
  group ← required fields 1
  group_id ← expect_bytes group
  number ← required fields 2
  revision ← expect_uint64 number
  previous ← required fields 3
  previous_revision_digest ← expect_sized_bytes previous 32
  issuer ← required fields 4
  issuer_root_public_key ← expect_sized_bytes issuer 32
  grants_value ← required fields 5
  encoded_grants ← expect_array grants_value
  grants ← traverse grant_from_cbor encoded_grants
  revocations_value ← required fields 6
  encoded_revocations ← expect_array revocations_value
  revocations ← traverse (λ item. expect_sized_bytes item 32) encoded_revocations
  policies_value ← required fields 7
  policies ← expect_array policies_value
  validation_policies ← traverse policy_from_cbor policies
  successor_root_public_key ← if_present (λ root. expect_sized_bytes root 32) (optional fields 8)
  successor_capability_log_feed ← if_present expect_bytes (optional fields 9)
  returned (record {
    group_id = group_id;
    revision = revision;
    previous_revision_digest = previous_revision_digest;
    issuer_root_public_key = issuer_root_public_key;
    grants = grants;
    revocations = revocations;
    validation_policies = validation_policies;
    successor_root_public_key = successor_root_public_key;
    successor_capability_log_feed = successor_capability_log_feed;
  })

module _ (codec : TextCodec) where
  unfoldable pub encode_capability_revision : CapabilityRevision → Outcome Bytes
  unfolding revision_to_cbor encode
  encode_capability_revision value = revision_to_cbor value >>= encode codec

  unfoldable pub decode_capability_revision : Bytes → Outcome CapabilityRevision
  unfolding assert_canonical assert_known_integer_keys expect_version read_revision revision_to_cbor
  decode_capability_revision bytes = do
    value ← assert_canonical codec bytes
    fields ← expect_map value
    assert_known_integer_keys fields (0 ∷ 1 ∷ 2 ∷ 3 ∷ 4 ∷ 5 ∷ 6 ∷ 7 ∷ 8 ∷ 9 ∷ [])
    expect_version fields 1
    revision ← read_revision fields
    revision_to_cbor revision
    returned revision

  unfoldable pub encode_signed_capability_revision : SignedCapabilityRevision → Outcome Bytes
  unfolding encode_capability_revision integer_map encode
  encode_signed_capability_revision value = do
    payload ← encode_capability_revision value.revision
    encode codec (
        integer_map (
          (0, some (unsigned 1))
          ∷ (1, some (cbor_bytes payload))
          ∷ (2, some (cbor_bytes value.signature))
          ∷ []))

  unfoldable pub decode_signed_capability_revision : Bytes → Outcome SignedCapabilityRevision
  unfolding assert_canonical assert_known_integer_keys expect_version decode_capability_revision
      required
  decode_signed_capability_revision bytes = do
    value ← assert_canonical codec bytes
    fields ← expect_map value
    assert_known_integer_keys fields (0 ∷ 1 ∷ 2 ∷ [])
    expect_version fields 1
    encoded ← required fields 1
    payload ← expect_bytes encoded
    revision ← decode_capability_revision payload
    signed ← required fields 2
    signature ← expect_sized_bytes signed 64
    returned (record { revision = revision; signature = signature })
