-- ===== src/Capabilities/Tests/Log.antt =====
-- Runs of the capability log's model at concrete inputs.
use chronolog_db.Prelude.{
  filter, leb, ℕ, zero, suc, ◌≤◌, ◌<◌, ◌+◌, ◌≡◌, refl, true, false, none, some, List, [], ◌∷◌,
  length, drop, arith, SubOf, All, Sorted, if◌then◌else◌, ◌==◌, String_eq, option_beq, sort,
  insert_sorted, any,
}
use chronolog_db.Prelude.Map
use chronolog_db.Bytes.{Bytes, compare_bytes, bytes_equal}
use chronolog_db.Bytes.Laws.{Bytes_eq}
use chronolog_db.Canonical.{TextCodec}
use chronolog_db.Canonical.BigEndian.{from_big_endian}
use chronolog_db.Protocol.{returned}
use chronolog_db.Protocol.Primitives.{Crypto}
use chronolog_db.Capabilities.Types.{
  validator, CapabilityGrant, SignedCapabilityRevision, EffectiveCapability, CapabilitySnapshot,
  RecoverySignature, RecoveryRecord,
}
use chronolog_db.Capabilities.Activity.{same_role}
use chronolog_db.Capabilities.Codec.Recovery.{encode_recovery_payload}
use chronolog_db.Capabilities.Reducer.{apply_capability_revision, apply_all}
use chronolog_db.Capabilities.Reducer.History.{IsKept, apply_all-keeps_history}
use chronolog_db.Capabilities.Reducer.Floors.{apply_capability_revision-floor}
use chronolog_db.Capabilities.Reducer.Validators.{floor_of}
use chronolog_db.Capabilities.Recovery.{
  is_signed, matches_snapshot, verify_recovery_record, apply_recovery_record,
}
use chronolog_db.Capabilities.Recovery.Accepted.{verify_recovery_record-filter}
use chronolog_db.Capabilities.Recovery.Threshold.{
  Signed, Differ, verify_recovery_record-IsThreshold,
}
use chronolog_db.Capabilities.Recovery.Effect.{IsAccounted, apply_recovery_record-granted}

abbrev zeros : ℕ → Bytes → Bytes
zeros zero bytes = bytes
zeros (suc n) bytes = 0 ∷ zeros n bytes

-- 32 bytes for a number.
abbrev key : ℕ → Bytes
key n = zeros 31 (n ∷ [])

-- The domains that are used, each with a byte of its own.
abbrev domains : TextCodec
domains = record {
  encode = λ text.
      if text == "chronolog/capability-revision/v1"
      then 1 ∷ []
      else if text == "chronolog/capability-grant/v1"
      then 2 ∷ []
      else 3 ∷ [];
  decode = λ bytes.
      if bytes_equal bytes (1 ∷ [])
      then some "chronolog/capability-revision/v1"
      else if bytes_equal bytes (2 ∷ [])
      then some "chronolog/capability-grant/v1"
      else some "chronolog/recovery/v1";
}

abbrev first_byte : Bytes → ℕ
first_byte [] = 0
first_byte (b ∷ bytes) = b

-- A digest names the domain only, and a signature is 32 bytes before the key of its signer.
abbrev toy : Crypto
toy = record {
  sha256 = λ bytes. key (first_byte bytes);
  verifies = λ public_key signature message. bytes_equal (drop 32 signature) public_key;
}

abbrev signed_by : Bytes → Bytes
signed_by public_key = zeros 32 public_key

abbrev grant_of : ℕ → ℕ → ℕ → CapabilityGrant
grant_of n from floor = record {
  subject_id = n ∷ [];
  signing_public_key = key n;
  transport_author = none;
  role = validator;
  valid_from_revision = from;
  valid_until_revision = none;
  organization = none;
  validator_class = none;
  minimum_author_timestamp_ms = some floor;
  reader_scope = none;
  hpke_public_key = none;
}

abbrev old : EffectiveCapability
old = record {
  id = key 50;
  grant = grant_of 50 0 5;
  granted_at_revision = 0;
  revoked_at_revision = none;
}

abbrev new : EffectiveCapability
new = record {
  id = key 2;
  grant = grant_of 51 1 6;
  granted_at_revision = 1;
  revoked_at_revision = none;
}

abbrev start : CapabilitySnapshot
start = record {
  group_id = 9 ∷ [];
  revision = 0;
  revision_digest = key 40;
  root_admin_public_key = key 60;
  capability_log_feed = 8 ∷ [];
  capabilities = (key 50, old) ∷ [];
  policies = [];
  recovery_public_keys = (key 70, (key 71, key 72));
  recovery_threshold = 2;
  history_reopened = false;
  recovery_event_digest = none;
}

abbrev addition : SignedCapabilityRevision
addition = record {
  revision = record {
    group_id = 9 ∷ [];
    revision = 1;
    previous_revision_digest = key 40;
    issuer_root_public_key = key 60;
    grants = grant_of 51 1 6 ∷ [];
    revocations = [];
    validation_policies = [];
    successor_root_public_key = none;
    successor_capability_log_feed = none;
  };
  signature = signed_by (key 60);
}

abbrev extended : CapabilitySnapshot
extended = record start {
  revision = 1;
  revision_digest = key 1;
  capabilities = (key 50, old) ∷ (key 2, new) ∷ [];
}

apply_capability_revision-addition :
    apply_capability_revision domains toy start addition ≡ returned extended
unfolding apply_capability_revision sort insert_sorted compare_bytes bytes_equal from_big_endian any
    option_beq Map.has Map.get Map.set
apply_capability_revision-addition = refl

apply_all-addition : apply_all domains toy start (addition ∷ []) ≡ returned extended
unfolding apply_all sort insert_sorted compare_bytes bytes_equal from_big_endian any option_beq
    Map.has Map.get Map.set
apply_all-addition = refl

apply_all-keeps_history_example :
    (extended.revision ≡ start.revision + length (addition ∷ []))
    × (extended.group_id ≡ start.group_id)
    × (extended.recovery_public_keys ≡ start.recovery_public_keys)
    × (extended.recovery_threshold ≡ start.recovery_threshold)
    × IsKept 0 (some old) (some old)
unfolding Map.get bytes_equal
apply_all-keeps_history_example =
    apply_all-keeps_history domains toy (addition ∷ []) start extended (key 50) 0 apply_all-addition
      (omega arith)

apply_capability_revision-floor_example : floor_of old.grant ≤ floor_of new.grant
unfolding Map.get bytes_equal same_role
apply_capability_revision-floor_example =
    apply_capability_revision-floor domains toy start addition extended (key 2) (key 50) new old
      apply_capability_revision-addition refl refl refl refl refl (refl, refl)

-- The only validator is revoked, and a new one of a lower floor is granted.
abbrev replacement : SignedCapabilityRevision
replacement = record {
  revision = record addition.revision { grants = grant_of 51 1 0 ∷ []; revocations = key 50 ∷ [] };
  signature = signed_by (key 60);
}

abbrev replaced : CapabilitySnapshot
replaced = record extended {
  capabilities =
      (key 50, record old { revoked_at_revision = some 1 })
      ∷ (key 2, record new { grant = grant_of 51 1 0 })
      ∷ [];
}

apply_capability_revision-replacement :
    apply_capability_revision domains toy start replacement ≡ returned replaced
unfolding apply_capability_revision sort insert_sorted compare_bytes bytes_equal from_big_endian any
    option_beq Map.has Map.get Map.set
apply_capability_revision-replacement = refl

-- Two of the three recovery keys appoint a validator.
abbrev recovery : RecoveryRecord
recovery = record {
  payload = record {
    group_id = 9 ∷ [];
    last_revision = 0;
    last_revision_digest = key 40;
    new_revision = 2;
    new_root_public_key = key 61;
    new_capability_log_feed = 7 ∷ [];
    validator_grants = grant_of 52 2 5 ∷ [];
    reopen_history = false;
    reopening_reason = none;
  };
  signatures =
      record { recovery_key_index = 0; signature = signed_by (key 70) }
      ∷ record { recovery_key_index = 2; signature = signed_by (key 72) }
      ∷ [];
}

abbrev appointed : EffectiveCapability
appointed = record {
  id = key 2;
  grant = grant_of 52 2 5;
  granted_at_revision = 2;
  revoked_at_revision = none;
}

abbrev recovered : CapabilitySnapshot
recovered = record start {
  revision = 2;
  revision_digest = key 3;
  root_admin_public_key = key 61;
  capability_log_feed = 7 ∷ [];
  capabilities = (key 50, record old { revoked_at_revision = some 2 }) ∷ (key 2, appointed) ∷ [];
  recovery_event_digest = some (key 3);
}

verify_recovery_record-IsThreshold_example :
    (matches_snapshot start recovery.payload ≡ true)
    × (bytes : Bytes) × (encode_recovery_payload domains recovery.payload ≡ returned bytes)
    × (signers : List RecoverySignature) × SubOf signers recovery.signatures
    × (2 ≤ length signers)
    × All (Signed domains toy start.recovery_public_keys bytes) signers
    × Sorted Differ signers
unfolding verify_recovery_record sort insert_sorted compare_bytes bytes_equal from_big_endian any
    option_beq Map.has Map.get Map.set
verify_recovery_record-IsThreshold_example =
    verify_recovery_record-IsThreshold domains toy start recovery refl

apply_recovery_record-granted_example :
    (start.revision < recovered.revision)
    × (recovered.revision ≡ recovery.payload.new_revision)
    × IsAccounted recovery.payload.validator_grants (some appointed)
unfolding apply_recovery_record same_role sort insert_sorted compare_bytes bytes_equal
    from_big_endian any option_beq Map.has Map.get Map.set
apply_recovery_record-granted_example =
    apply_recovery_record-granted domains toy start recovery recovered (key 2) refl

abbrev recovery_bytes : Bytes
recovery_bytes =
    0xa9
    ∷ 0
    ∷ 1
    ∷ 1
    ∷ 0x41
    ∷ 9
    ∷ 2
    ∷ 0
    ∷ 3
    ∷ 0x58
    ∷ 32
    ∷ zeros 31 (
        40
        ∷ 4
        ∷ 2
        ∷ 5
        ∷ 0x58
        ∷ 32
        ∷ zeros 31 (
            61
            ∷ 6
            ∷ 0x41
            ∷ 7
            ∷ 7
            ∷ 0x81
            ∷ 0xa5
            ∷ 0
            ∷ 0x41
            ∷ 52
            ∷ 1
            ∷ 0x58
            ∷ 32
            ∷ zeros 31 (52 ∷ 2 ∷ 2 ∷ 3 ∷ 2 ∷ 7 ∷ 5 ∷ 8 ∷ 0xf4 ∷ [])))

verify_recovery_record-filter_example :
    verify_recovery_record domains toy start recovery
    ≡ returned (
        leb 2 (
          length (
            filter
              (is_signed domains toy start.recovery_public_keys recovery_bytes)
              recovery.signatures)))
unfolding verify_recovery_record encode_recovery_payload sort insert_sorted compare_bytes
    bytes_equal from_big_endian any option_beq Map.has Map.get Map.set
verify_recovery_record-filter_example =
    verify_recovery_record-filter domains toy start recovery recovery_bytes refl refl
      (((λ same. ground (arith, same)), tt), (tt, tt))
