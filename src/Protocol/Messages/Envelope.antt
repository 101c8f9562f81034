-- ===== src/Protocol/Messages/Envelope.antt =====
-- The codec of envelopes and payload manifests in packages/protocol/src/messages.ts.
pub mod RoundTrip
use chronolog_db.Prelude.{
  ℕ, ◌+◌, Option, none, some, List, [], ◌∷◌, ltb, nat_eq, length, if◌then◌else◌, map, String_eq,
}
use chronolog_db.Bytes.{Bytes}
use chronolog_db.Canonical.{TextCodec}
use chronolog_db.Canonical.Cbor.{CborValue, CborEntries, cbor_null, cbor_bytes, cbor_array}
use chronolog_db.Protocol.{
  Outcome, returned, thrown, ◌>>=◌, ◌>>◌, protocol_invariant, schema_invalid,
}
use chronolog_db.Protocol.Schema.{
  integer_map, required, expect_map, expect_array, expect_bytes, expect_sized_bytes, expect_uint64,
  expect_version, assert_known_integer_keys, traverse, from_list, encode, assert_canonical,
  unsigned,
}
use chronolog_db.Protocol.Messages.{
  PayloadChunk, PayloadManifest, EnvelopeMessageType, candidate, attestation, heartbeat, capability,
  recovery, epoch_manifest, proof_bundle, snapshot_message, EnvelopePayload, inline_payload,
  manifest_payload, ChronologEnvelope,
}

abbrev pub message_index : EnvelopeMessageType → ℕ
message_index candidate = 0
message_index attestation = 1
message_index heartbeat = 2
message_index capability = 3
message_index recovery = 4
message_index epoch_manifest = 5
message_index proof_bundle = 6
message_index snapshot_message = 7

-- `MESSAGE_TYPES[index]`
abbrev pub message_at : ℕ → Outcome EnvelopeMessageType
message_at index =
    if nat_eq index 0
    then returned candidate
    else if nat_eq index 1
    then returned attestation
    else if nat_eq index 2
    then returned heartbeat
    else if nat_eq index 3
    then returned capability
    else if nat_eq index 4
    then returned recovery
    else if nat_eq index 5
    then returned epoch_manifest
    else if nat_eq index 6
    then returned proof_bundle
    else if nat_eq index 7
    then returned snapshot_message
    else thrown schema_invalid

unfoldable pub chunk_to_cbor : PayloadChunk → CborValue
unfolding integer_map
chunk_to_cbor chunk =
    integer_map ((0, some (cbor_bytes chunk.digest)) ∷ (1, some (unsigned chunk.size)) ∷ [])

unfoldable pub manifest_to_cbor : PayloadManifest → Outcome CborValue
unfolding integer_map chunk_to_cbor
manifest_to_cbor value =
    protocol_invariant (ltb 0 (length value.chunks)) schema_invalid
    >> returned (
        integer_map (
          (0, some (cbor_bytes value.total_digest))
          ∷ (1, some (unsigned value.total_size))
          ∷ (2, some (cbor_array (from_list (map chunk_to_cbor value.chunks))))
          ∷ []))

unfoldable pub chunk_from_cbor : CborValue → Outcome PayloadChunk
unfolding assert_known_integer_keys required
chunk_from_cbor value = do
  fields ← expect_map value
  assert_known_integer_keys fields (0 ∷ 1 ∷ [])
  digest_value ← required fields 0
  digest ← expect_sized_bytes digest_value 32
  size_value ← required fields 1
  size ← expect_uint64 size_value
  returned (record { digest = digest; size = size })

abbrev pub total_of : List PayloadChunk → ℕ
total_of [] = 0
total_of (chunk ∷ chunks) = chunk.size + total_of chunks

unfoldable pub manifest_from_cbor : CborValue → Outcome PayloadManifest
unfolding assert_known_integer_keys required chunk_from_cbor
manifest_from_cbor value = do
  fields ← expect_map value
  assert_known_integer_keys fields (0 ∷ 1 ∷ 2 ∷ [])
  chunks_value ← required fields 2
  encoded ← expect_array chunks_value
  chunks ← traverse chunk_from_cbor encoded
  protocol_invariant (ltb 0 (length chunks)) schema_invalid
  size_value ← required fields 1
  total_size ← expect_uint64 size_value
  protocol_invariant (nat_eq (total_of chunks) total_size) schema_invalid
  digest_value ← required fields 0
  total_digest ← expect_sized_bytes digest_value 32
  returned (record { total_digest = total_digest; total_size = total_size; chunks = chunks })

unfoldable pub payload_to_cbor : EnvelopePayload → Outcome CborValue
unfolding manifest_to_cbor
payload_to_cbor (inline_payload bytes) =
    returned (cbor_array (from_list (unsigned 0 ∷ cbor_bytes bytes ∷ [])))
payload_to_cbor (manifest_payload m) =
    manifest_to_cbor m >>= λ value. returned (cbor_array (from_list (unsigned 1 ∷ value ∷ [])))

unfoldable pub payload_from_cbor : ℕ → CborValue → Outcome EnvelopePayload
unfolding manifest_from_cbor
payload_from_cbor kind value =
    if nat_eq kind 0
    then (expect_bytes value >>= λ bytes. returned (inline_payload bytes))
    else if nat_eq kind 1
    then (manifest_from_cbor value >>= λ m. returned (manifest_payload m))
    else thrown schema_invalid

-- The two elements of the payload.
abbrev pub read_payload : List CborValue → Outcome EnvelopePayload
read_payload (kind_value ∷ value ∷ []) =
    expect_uint64 kind_value >>= λ kind. payload_from_cbor kind value
read_payload _ = thrown schema_invalid

abbrev pub epoch_to_cbor : Option Bytes → CborValue
epoch_to_cbor none = cbor_null
epoch_to_cbor (some epoch) = cbor_bytes epoch

abbrev pub epoch_from_cbor : CborValue → Outcome (Option Bytes)
epoch_from_cbor cbor_null = returned none
epoch_from_cbor (cbor_bytes epoch) = returned (some epoch)
epoch_from_cbor _ = thrown schema_invalid

unfoldable pub envelope_fields : ChronologEnvelope → CborValue → CborValue
unfolding integer_map
envelope_fields value payload = integer_map (
    (0, some (unsigned 1))
    ∷ (1, some (cbor_bytes value.group_route))
    ∷ (2, some (unsigned (message_index value.message_type)))
    ∷ (3, some (epoch_to_cbor value.encryption_epoch))
    ∷ (4, some (cbor_bytes value.payload_digest))
    ∷ (5, some payload)
    ∷ [])

unfoldable read_envelope : CborEntries → Outcome ChronologEnvelope
unfolding required payload_from_cbor
read_envelope fields = do
  type_value ← required fields 2
  type_index ← expect_uint64 type_value
  message_type ← message_at type_index
  epoch_value ← required fields 3
  encryption_epoch ← epoch_from_cbor epoch_value
  payload_value ← required fields 5
  elements ← expect_array payload_value
  payload ← read_payload elements
  route ← required fields 1
  group_route ← expect_bytes route
  digest ← required fields 4
  payload_digest ← expect_sized_bytes digest 32
  returned (record {
    group_route = group_route;
    message_type = message_type;
    encryption_epoch = encryption_epoch;
    payload_digest = payload_digest;
    payload = payload;
  })

module _ (codec : TextCodec) where
  unfoldable pub encode_envelope : ChronologEnvelope → Outcome Bytes
  unfolding payload_to_cbor envelope_fields encode
  encode_envelope value =
      payload_to_cbor value.payload >>= λ payload. encode codec (envelope_fields value payload)

  unfoldable pub decode_envelope : Bytes → Outcome ChronologEnvelope
  unfolding assert_canonical assert_known_integer_keys expect_version read_envelope
  decode_envelope bytes = do
    value ← assert_canonical codec bytes
    fields ← expect_map value
    assert_known_integer_keys fields (0 ∷ 1 ∷ 2 ∷ 3 ∷ 4 ∷ 5 ∷ [])
    expect_version fields 1
    read_envelope fields
