-- ===== src/Capabilities/Codec/Genesis.antt =====
-- Genesis manifests in packages/capabilities/src/codec.ts.
use chronolog_db.Prelude.{
  ℕ, Bool, true, false, not, ◌&&◌, none, some, List, [], ◌∷◌, nat_eq, length, get_elem?,
}
use chronolog_db.Bytes.{Bytes, bytes_equal}
use chronolog_db.Canonical.{TextCodec}
use chronolog_db.Canonical.Cbor.{
  CborValue, CborEntries, cbor_null, cbor_text, cbor_bytes, cbor_array,
}
use chronolog_db.Protocol.{Outcome, returned, ◌>>=◌, ◌>>◌, protocol_invariant, schema_invalid}
use chronolog_db.Protocol.Schema.{
  integer_map, required, expect_map, expect_array, expect_bytes, expect_sized_bytes, expect_string,
  expect_uint64, expect_version, assert_known_integer_keys, traverse, from_list, encode,
  assert_canonical, unsigned,
}
use chronolog_db.Capabilities.Types.{ClockPolicy, ResourcePolicy, GenesisManifest, SignedGenesis}
use chronolog_db.Capabilities.Codec.{
  grant_to_cbor, grant_from_cbor, policy_to_cbor, policy_from_cbor,
}

unfoldable pub clock_to_cbor : ClockPolicy → CborValue
unfolding integer_map
clock_to_cbor policy = integer_map (
    (0, some (unsigned policy.max_future_skew_ms))
    ∷ (1, some (unsigned policy.cutoff_lag_ms))
    ∷ (2, some (unsigned policy.heartbeat_interval_ms))
    ∷ [])

unfoldable pub clock_from_cbor : CborValue → Outcome ClockPolicy
unfolding assert_known_integer_keys required
clock_from_cbor value = do
  fields ← expect_map value
  assert_known_integer_keys fields (0 ∷ 1 ∷ 2 ∷ [])
  skew ← required fields 0
  max_future_skew_ms ← expect_uint64 skew
  lag ← required fields 1
  cutoff_lag_ms ← expect_uint64 lag
  interval ← required fields 2
  heartbeat_interval_ms ← expect_uint64 interval
  returned (record {
    max_future_skew_ms = max_future_skew_ms;
    cutoff_lag_ms = cutoff_lag_ms;
    heartbeat_interval_ms = heartbeat_interval_ms;
  })

unfoldable pub resource_to_cbor : ResourcePolicy → CborValue
unfolding integer_map
resource_to_cbor policy = integer_map (
    (0, some (unsigned policy.max_candidate_bytes))
    ∷ (1, some (unsigned policy.max_program_nodes))
    ∷ (2, some (unsigned policy.max_preconditions))
    ∷ (3, some (unsigned policy.max_mutations))
    ∷ [])

unfoldable pub resource_from_cbor : CborValue → Outcome ResourcePolicy
unfolding assert_known_integer_keys required
resource_from_cbor value = do
  fields ← expect_map value
  assert_known_integer_keys fields (0 ∷ 1 ∷ 2 ∷ 3 ∷ [])
  bytes ← required fields 0
  max_candidate_bytes ← expect_uint64 bytes
  nodes ← required fields 1
  max_program_nodes ← expect_uint64 nodes
  preconditions ← required fields 2
  max_preconditions ← expect_uint64 preconditions
  mutations ← required fields 3
  max_mutations ← expect_uint64 mutations
  returned (record {
    max_candidate_bytes = max_candidate_bytes;
    max_program_nodes = max_program_nodes;
    max_preconditions = max_preconditions;
    max_mutations = max_mutations;
  })

abbrev pub is_key : Bytes → Bool
is_key key = nat_eq (length key) 32

-- The number of different keys among three is three.
abbrev are_three : Bytes × (Bytes × Bytes) → Bool
are_three (a, (b, c)) = not (bytes_equal a b) && not (bytes_equal a c) && not (bytes_equal b c)

abbrev is_nonempty {ℓ} : {A : Type ℓ} → List A → Bool
is_nonempty [] = false
is_nonempty (a ∷ as') = true

unfoldable check_genesis : GenesisManifest → Outcome (Unit {0})
check_genesis value =
    let (a, (b, c)) = value.recovery_public_keys in
    do
      protocol_invariant (is_key value.root_admin_public_key) schema_invalid
      protocol_invariant (is_key a && is_key b && is_key c) schema_invalid
      protocol_invariant (nat_eq value.recovery_threshold 2) schema_invalid
      protocol_invariant (are_three value.recovery_public_keys) schema_invalid
      protocol_invariant (is_nonempty value.validation_policies) schema_invalid

unfoldable pub genesis_to_cbor : GenesisManifest → Outcome CborValue
unfolding check_genesis grant_to_cbor policy_to_cbor clock_to_cbor resource_to_cbor integer_map
genesis_to_cbor value =
    let (a, (b, c)) = value.recovery_public_keys in
    do
      check_genesis value
      grants ← traverse grant_to_cbor value.initial_capabilities
      policies ← traverse policy_to_cbor value.validation_policies
      returned (
          integer_map (
            (0, some (unsigned 1))
            ∷ (1, some (cbor_bytes value.group_id))
            ∷ (2, some (cbor_bytes value.schema_id))
            ∷ (3, some (cbor_bytes value.root_admin_public_key))
            ∷ (4, some (cbor_bytes value.capability_log_feed))
            ∷ (5, some (cbor_array (from_list (cbor_bytes a ∷ cbor_bytes b ∷ cbor_bytes c ∷ []))))
            ∷ (6, some (unsigned value.recovery_threshold))
            ∷ (7, some (cbor_array (from_list grants)))
            ∷ (8, some (cbor_array (from_list policies)))
            ∷ (9, some (clock_to_cbor value.clock_policy))
            ∷ (10, some (resource_to_cbor value.resource_policy))
            ∷ (11, some (cbor_text value.encryption_suite))
            ∷ (12, some (unsigned value.created_at_ms))
            ∷ []))

-- `recovery[i] ?? null`
abbrev elem_or_null : List CborValue → ℕ → CborValue
elem_or_null items i = elim (get_elem? items i) [ none ↦ cbor_null | some value ↦ value ]

-- The fields of a manifest, before its checks.
unfoldable read_genesis : CborEntries → Outcome GenesisManifest
unfolding required grant_from_cbor policy_from_cbor clock_from_cbor resource_from_cbor
read_genesis fields = do
  keys ← required fields 5
  recovery ← expect_array keys
  protocol_invariant (nat_eq (length recovery) 3) schema_invalid
  group ← required fields 1
  group_id ← expect_bytes group
  schema ← required fields 2
  schema_id ← expect_bytes schema
  root ← required fields 3
  root_admin_public_key ← expect_sized_bytes root 32
  feed ← required fields 4
  capability_log_feed ← expect_bytes feed
  a ← expect_sized_bytes (elem_or_null recovery 0) 32
  b ← expect_sized_bytes (elem_or_null recovery 1) 32
  c ← expect_sized_bytes (elem_or_null recovery 2) 32
  threshold ← required fields 6
  recovery_threshold ← expect_uint64 threshold
  capabilities ← required fields 7
  grants ← expect_array capabilities
  initial_capabilities ← traverse grant_from_cbor grants
  policies_value ← required fields 8
  policies ← expect_array policies_value
  validation_policies ← traverse policy_from_cbor policies
  clock ← required fields 9
  clock_policy ← clock_from_cbor clock
  resource ← required fields 10
  resource_policy ← resource_from_cbor resource
  suite ← required fields 11
  encryption_suite ← expect_string suite
  created ← required fields 12
  created_at_ms ← expect_uint64 created
  returned (record {
    group_id = group_id;
    schema_id = schema_id;
    root_admin_public_key = root_admin_public_key;
    capability_log_feed = capability_log_feed;
    recovery_public_keys = (a, (b, c));
    recovery_threshold = recovery_threshold;
    initial_capabilities = initial_capabilities;
    validation_policies = validation_policies;
    clock_policy = clock_policy;
    resource_policy = resource_policy;
    encryption_suite = encryption_suite;
    created_at_ms = created_at_ms;
  })

module _ (codec : TextCodec) where
  unfoldable pub encode_genesis_manifest : GenesisManifest → Outcome Bytes
  unfolding genesis_to_cbor encode
  encode_genesis_manifest value = genesis_to_cbor value >>= encode codec

  unfoldable pub decode_genesis_manifest : Bytes → Outcome GenesisManifest
  unfolding assert_canonical assert_known_integer_keys expect_version read_genesis genesis_to_cbor
  decode_genesis_manifest bytes = do
    value ← assert_canonical codec bytes
    fields ← expect_map value
    assert_known_integer_keys fields (0 ∷ 1 ∷ 2 ∷ 3 ∷ 4 ∷ 5 ∷ 6 ∷ 7 ∷ 8 ∷ 9 ∷ 10 ∷ 11 ∷ 12 ∷ [])
    expect_version fields 1
    manifest ← read_genesis fields
    genesis_to_cbor manifest
    returned manifest

  unfoldable pub encode_signed_genesis : SignedGenesis → Outcome Bytes
  unfolding encode_genesis_manifest integer_map encode
  encode_signed_genesis value = do
    manifest ← encode_genesis_manifest value.manifest
    encode codec (
        integer_map (
          (0, some (unsigned 1))
          ∷ (1, some (cbor_bytes manifest))
          ∷ (2, some (cbor_bytes value.signature))
          ∷ []))

  unfoldable pub decode_signed_genesis : Bytes → Outcome SignedGenesis
  unfolding assert_canonical assert_known_integer_keys expect_version decode_genesis_manifest
      required
  decode_signed_genesis bytes = do
    value ← assert_canonical codec bytes
    fields ← expect_map value
    assert_known_integer_keys fields (0 ∷ 1 ∷ 2 ∷ [])
    expect_version fields 1
    encoded ← required fields 1
    payload ← expect_bytes encoded
    manifest ← decode_genesis_manifest payload
    signed ← required fields 2
    signature ← expect_sized_bytes signed 64
    returned (record { manifest = manifest; signature = signature })
