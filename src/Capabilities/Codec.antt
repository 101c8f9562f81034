-- ===== src/Capabilities/Codec.antt =====
-- packages/capabilities/src/codec.ts: grants and validation policies as CBOR values. The messages that hold
-- them are below. Fields that the types make unsigned cannot be negative here.
pub mod Genesis
pub mod Revision
pub mod Recovery
use chronolog_db.Prelude.{
  ℕ, Bool, true, false, not, ◌&&◌, ◌||◌, Option, none, some, List, [], ◌∷◌, String, map, ltb, leb,
  nat_eq, length, any, ◌==◌, String_eq, if◌then◌else◌,
}
use chronolog_db.Prelude.Map
use chronolog_db.Prelude.Map.{Map}
use chronolog_db.Prelude.Int.{pos}
use chronolog_db.Bytes.{Bytes}
use chronolog_db.Canonical.Cbor.{
  CborMapKey, key_text, CborValue, CborEntries, cbor_integer, cbor_text, cbor_bytes, cbor_array,
  cbor_map, no_entries, entry,
}
use chronolog_db.Canonical.Cbor.Decode.{set_entry}
use chronolog_db.Protocol.{
  Outcome, returned, thrown, ◌>>=◌, ◌>>◌, protocol_invariant, schema_invalid,
}
use chronolog_db.Protocol.Schema.{
  unsigned, as_text, integer_map, optional, required, expect_map, expect_array, expect_bytes,
  expect_sized_bytes, expect_string, expect_uint64, assert_known_integer_keys, traverse, if_present,
  from_list,
}
use chronolog_db.Capabilities.Types.{
  CapabilityRole, reader, writer, validator, administrator, schema_administrator,
  ReaderHistoryScope, snapshot_scope, audit_scope, CapabilityGrant, ValidationPolicy,
}
use chronolog_db.Capabilities.Activity.{role_index, same_role}

abbrev pub if_some {ℓ κ} : {A : Type ℓ} {B : Type κ} → (A → B) → Option A → Option B
if_some f none = none
if_some f (some a) = some (f a)

abbrev pub is_some {ℓ} : {A : Type ℓ} → Option A → Bool
is_some none = false
is_some (some a) = true

-- `ROLES[index]`
abbrev role_at : ℕ → Outcome CapabilityRole
role_at index =
    if nat_eq index 0
    then returned reader
    else if nat_eq index 1
    then returned writer
    else if nat_eq index 2
    then returned validator
    else if nat_eq index 3
    then returned administrator
    else if nat_eq index 4
    then returned schema_administrator
    else thrown schema_invalid

abbrev scope_index : ReaderHistoryScope → ℕ
scope_index snapshot_scope = 0
scope_index audit_scope = 1

abbrev scope_at : ℕ → Outcome ReaderHistoryScope
scope_at index =
    if nat_eq index 0
    then returned snapshot_scope
    else if nat_eq index 1
    then returned audit_scope
    else thrown schema_invalid

-- A limit is not below the first revision.
abbrev is_interval : ℕ → Option ℕ → Bool
is_interval from none = true
is_interval from (some until) = leb from until

abbrev has_length : ℕ → Option Bytes → Bool
has_length size none = false
has_length size (some bytes) = nat_eq (length bytes) size

abbrev is_not_empty : Option String → Bool
is_not_empty none = true
is_not_empty (some text) = not (text == "")

-- Only validators have a class and a floor, and each has a floor.
unfoldable check_validator_fields : CapabilityGrant → Outcome (Unit {0})
unfolding same_role
check_validator_fields grant =
    if same_role grant.role validator
    then protocol_invariant (is_some grant.minimum_author_timestamp_ms) schema_invalid
    else protocol_invariant
        (not (is_some grant.validator_class) && not (is_some grant.minimum_author_timestamp_ms))
        schema_invalid

-- Only readers have a scope and a key for encryption, and each has both.
unfoldable check_reader_fields : CapabilityGrant → Outcome (Unit {0})
unfolding same_role
check_reader_fields grant =
    if same_role grant.role reader
    then protocol_invariant (is_some grant.reader_scope && is_some grant.hpke_public_key)
        schema_invalid
      >> protocol_invariant (has_length 32 grant.hpke_public_key) schema_invalid
    else protocol_invariant
        (not (is_some grant.reader_scope) && not (is_some grant.hpke_public_key)) schema_invalid

-- The checks of `grantToCbor`.
unfoldable check_grant : CapabilityGrant → Outcome (Unit {0})
unfolding check_validator_fields check_reader_fields
check_grant grant = do
  protocol_invariant (nat_eq (length grant.signing_public_key) 32) schema_invalid
  protocol_invariant (is_interval grant.valid_from_revision grant.valid_until_revision)
      schema_invalid
  check_validator_fields grant
  check_reader_fields grant
  protocol_invariant (is_not_empty grant.transport_author) schema_invalid

unfoldable grant_fields : CapabilityGrant → CborValue
unfolding integer_map role_index
grant_fields grant = integer_map (
    (0, some (cbor_bytes grant.subject_id))
    ∷ (1, some (cbor_bytes grant.signing_public_key))
    ∷ (2, some (unsigned (role_index grant.role)))
    ∷ (3, some (unsigned grant.valid_from_revision))
    ∷ (4, if_some unsigned grant.valid_until_revision)
    ∷ (5, if_some cbor_text grant.organization)
    ∷ (6, if_some cbor_text grant.validator_class)
    ∷ (7, if_some unsigned grant.minimum_author_timestamp_ms)
    ∷ (8, if_some (λ scope. unsigned (scope_index scope)) grant.reader_scope)
    ∷ (9, if_some cbor_bytes grant.hpke_public_key)
    ∷ (10, if_some cbor_text grant.transport_author)
    ∷ [])

unfoldable pub grant_to_cbor : CapabilityGrant → Outcome CborValue
unfolding check_grant grant_fields
grant_to_cbor grant = check_grant grant >> returned (grant_fields grant)

-- The fields of a grant, before its checks.
unfoldable read_grant : CborEntries → Outcome CapabilityGrant
unfolding required optional
read_grant fields = do
  role_value ← required fields 2
  index ← expect_uint64 role_value
  role ← role_at index
  subject ← required fields 0
  subject_id ← expect_bytes subject
  signing ← required fields 1
  signing_public_key ← expect_sized_bytes signing 32
  from ← required fields 3
  valid_from_revision ← expect_uint64 from
  valid_until_revision ← if_present expect_uint64 (optional fields 4)
  organization ← if_present expect_string (optional fields 5)
  validator_class ← if_present expect_string (optional fields 6)
  minimum_author_timestamp_ms ← if_present expect_uint64 (optional fields 7)
  reader_scope ← if_present (λ value. expect_uint64 value >>= scope_at) (optional fields 8)
  hpke_public_key ← if_present (λ value. expect_sized_bytes value 32) (optional fields 9)
  transport_author ← if_present expect_string (optional fields 10)
  returned (record {
    subject_id = subject_id;
    signing_public_key = signing_public_key;
    transport_author = transport_author;
    role = role;
    valid_from_revision = valid_from_revision;
    valid_until_revision = valid_until_revision;
    organization = organization;
    validator_class = validator_class;
    minimum_author_timestamp_ms = minimum_author_timestamp_ms;
    reader_scope = reader_scope;
    hpke_public_key = hpke_public_key;
  })

unfoldable pub grant_from_cbor : CborValue → Outcome CapabilityGrant
unfolding assert_known_integer_keys read_grant grant_to_cbor
grant_from_cbor value = do
  fields ← expect_map value
  assert_known_integer_keys fields (0 ∷ 1 ∷ 2 ∷ 3 ∷ 4 ∷ 5 ∷ 6 ∷ 7 ∷ 8 ∷ 9 ∷ 10 ∷ [])
  grant ← read_grant fields
  grant_to_cbor grant
  returned grant

-- The loop over the class minimums.
unfoldable class_entries : Map String ℕ → CborEntries → Outcome CborEntries
unfolding set_entry
class_entries [] entries = returned entries
class_entries ((name, minimum) ∷ classes) entries =
    let rest = class_entries classes (set_entry (key_text name) (unsigned minimum) entries) in
    protocol_invariant (not (name == "") && ltb 0 minimum) schema_invalid >> rest

-- `new Set(names).size === names.length`
unfoldable are_distinct : List String → Bool
are_distinct [] = true
are_distinct (name ∷ names) = not (any (λ other. other == name) names) && are_distinct names

unfoldable pub policy_to_cbor : ValidationPolicy → Outcome CborValue
unfolding class_entries are_distinct integer_map
policy_to_cbor policy = do
  protocol_invariant (ltb 0 policy.minimum_validators) schema_invalid
  classes ← class_entries policy.class_minimums no_entries
  protocol_invariant (are_distinct policy.required_organizations) schema_invalid
  protocol_invariant (not (any (λ name. name == "") policy.required_organizations)) schema_invalid
  returned (
      integer_map (
        (0, some (unsigned policy.version))
        ∷ (1, some (unsigned policy.minimum_validators))
        ∷ (2, some (cbor_map classes))
        ∷ (3, some (cbor_array (from_list (map cbor_text policy.required_organizations))))
        ∷ []))

unfoldable read_classes : CborEntries → Map String ℕ → Outcome (Map String ℕ)
read_classes no_entries classes = returned classes
read_classes (entry k v es) classes = as_text k >>= λ name.
    expect_uint64 v >>= λ minimum. read_classes es (Map.set classes name minimum)

unfoldable pub policy_from_cbor : CborValue → Outcome ValidationPolicy
unfolding assert_known_integer_keys required read_classes policy_to_cbor
policy_from_cbor value = do
  fields ← expect_map value
  assert_known_integer_keys fields (0 ∷ 1 ∷ 2 ∷ 3 ∷ [])
  classes_value ← required fields 2
  encoded_classes ← expect_map classes_value
  classes ← read_classes encoded_classes []
  version_value ← required fields 0
  version ← expect_uint64 version_value
  minimum ← required fields 1
  minimum_validators ← expect_uint64 minimum
  organizations ← required fields 3
  names ← expect_array organizations
  required_organizations ← traverse expect_string names
  let policy : ValidationPolicy = record {
    version = version;
    minimum_validators = minimum_validators;
    class_minimums = classes;
    required_organizations = required_organizations;
  }
  policy_to_cbor policy
  returned policy
