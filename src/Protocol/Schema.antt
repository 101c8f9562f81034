-- ===== src/Protocol/Schema.antt =====
-- packages/protocol/src/schema.ts, and the errors of packages/canonical that packages/protocol/src/cbor.ts
-- passes on. The name of a field stands in messages only, so it is no argument.
pub mod RoundTrip
use chronolog_db.Prelude.{
  ℕ, Bool, false, Option, none, some, List, [], ◌∷◌, String, leb, nat_eq, length, any, map,
  if◌then◌else◌,
}
use chronolog_db.Prelude.Int.{ℤ, pos, negsuc}
use chronolog_db.Bytes.{Bytes}
use chronolog_db.Canonical.{CanonicalErrorCode, Checked, passed, refused, TextCodec}
use chronolog_db.Canonical.Cbor.{
  CborMapKey, key_integer, key_text, CborValue, CborItems, CborEntries, cbor_integer, cbor_text,
  cbor_bytes, cbor_array, cbor_map, no_items, item, no_entries, entry, max_uint64,
  encode_canonical_cbor,
}
use chronolog_db.Canonical.Cbor.Decode.{
  default_decode_limits, set_entry, same_key, assert_canonical_cbor,
}
use chronolog_db.Protocol.{
  ProtocolErrorCode, schema_invalid, integer_out_of_range, unsupported_version, Outcome, returned,
  thrown, ◌>>=◌, ◌>>◌, protocol_invariant,
}

abbrev protocol_code : CanonicalErrorCode → ProtocolErrorCode
protocol_code CanonicalErrorCode.cbor_invalid = ProtocolErrorCode.cbor_invalid
protocol_code CanonicalErrorCode.cbor_non_canonical = ProtocolErrorCode.cbor_non_canonical
protocol_code CanonicalErrorCode.cbor_limit_exceeded = ProtocolErrorCode.cbor_limit_exceeded
protocol_code CanonicalErrorCode.schema_invalid = ProtocolErrorCode.schema_invalid
protocol_code CanonicalErrorCode.integer_out_of_range = ProtocolErrorCode.integer_out_of_range
protocol_code CanonicalErrorCode.invalid_utf8 = ProtocolErrorCode.invalid_utf8
protocol_code CanonicalErrorCode.digest_mismatch = ProtocolErrorCode.digest_mismatch

-- An error of the canonical package becomes one of the protocol with the same code.
abbrev pub wrap {ℓ} : {A : Type ℓ} → Checked A → Outcome A
wrap (passed a) = returned a
wrap (refused e) = thrown (protocol_code e)

-- The entries of an integer map, without those that are undefined.
unfoldable integer_entries : List (ℕ × Option CborValue) → CborEntries → CborEntries
unfolding set_entry
integer_entries [] entries = entries
integer_entries ((key, none) ∷ fields) entries = integer_entries fields entries
integer_entries ((key, some value) ∷ fields) entries =
    integer_entries fields (set_entry (key_integer (pos key)) value entries)

unfoldable pub integer_map : List (ℕ × Option CborValue) → CborValue
unfolding integer_entries
integer_map fields = cbor_map (integer_entries fields no_entries)

-- `map.get(BigInt(key))`
unfoldable pub optional : CborEntries → ℕ → Option CborValue
optional no_entries key = none
optional (entry k v es) key =
    let rest = optional es key in if same_key k (key_integer (pos key)) then some v else rest

abbrev or_missing : Option CborValue → Outcome CborValue
or_missing none = thrown schema_invalid
or_missing (some v) = returned v

unfoldable pub required : CborEntries → ℕ → Outcome CborValue
unfolding optional
required map key = or_missing (optional map key)

abbrev pub expect_map : CborValue → Outcome CborEntries
expect_map (cbor_map entries) = returned entries
expect_map _ = thrown schema_invalid

abbrev pub to_list : CborItems → List CborValue
to_list no_items = []
to_list (item v vs) = v ∷ to_list vs

abbrev pub from_list : List CborValue → CborItems
from_list [] = no_items
from_list (v ∷ vs) = item v (from_list vs)

-- A number of a field, and the text of a key.
abbrev pub unsigned : ℕ → CborValue
unsigned n = cbor_integer (pos n)

abbrev pub as_text : CborMapKey → Outcome String
as_text (key_text text) = returned text
as_text _ = thrown schema_invalid

abbrev pub expect_array : CborValue → Outcome (List CborValue)
expect_array (cbor_array items) = returned (to_list items)
expect_array _ = thrown schema_invalid

abbrev pub expect_bytes : CborValue → Outcome Bytes
expect_bytes (cbor_bytes bytes) = returned bytes
expect_bytes _ = thrown schema_invalid

-- `expectBytes` with a length.
abbrev pub expect_sized_bytes : CborValue → ℕ → Outcome Bytes
expect_sized_bytes value size = expect_bytes value >>= λ bytes.
    protocol_invariant (nat_eq (length bytes) size) schema_invalid >> returned bytes

abbrev pub expect_string : CborValue → Outcome String
expect_string (cbor_text text) = returned text
expect_string _ = thrown schema_invalid

abbrev pub expect_bigint : CborValue → Outcome ℤ
expect_bigint (cbor_integer n) = returned n
expect_bigint _ = thrown schema_invalid

-- The range check of `expectUint64`, whose result is a number of ℕ.
abbrev as_uint64 : ℤ → Outcome ℕ
as_uint64 (pos n) = protocol_invariant (leb n max_uint64) integer_out_of_range >> returned n
as_uint64 (negsuc n) = thrown integer_out_of_range

abbrev pub expect_uint64 : CborValue → Outcome ℕ
expect_uint64 value = expect_bigint value >>= as_uint64

abbrev is_known : List ℕ → CborMapKey → Bool
is_known known (key_integer (pos n)) = any (nat_eq n) known
is_known known _ = false

unfoldable pub assert_known_integer_keys : CborEntries → List ℕ → Outcome (Unit {0})
assert_known_integer_keys no_entries known = returned tt
assert_known_integer_keys (entry k v es) known =
    let rest = assert_known_integer_keys es known in
    protocol_invariant (is_known known k) schema_invalid >> rest

unfoldable pub expect_version : CborEntries → ℕ → Outcome (Unit {0})
unfolding required
expect_version map expected = required map 0 >>= λ value. expect_uint64 value >>= λ version.
    protocol_invariant (nat_eq version expected) unsupported_version

-- `items.map(...)` with a reader that may throw: the first error is thrown.
abbrev pub traverse {ℓ κ} : {A : Type ℓ} {B : Type κ} → (A → Outcome B) → List A → Outcome (List B)
traverse read [] = returned []
traverse read (a ∷ as') = read a >>= λ b. traverse read as' >>= λ bs. returned (b ∷ bs)

-- An optional field that is read if it is there.
abbrev pub if_present {ℓ} :
    {A : Type ℓ} → (CborValue → Outcome A) → Option CborValue → Outcome (Option A)
if_present read none = returned none
if_present read (some value) = read value >>= λ a. returned (some a)

-- `encodeCanonicalCbor`, whose errors are not wrapped by the protocol, by the code that they carry.
unfoldable pub encode : TextCodec → CborValue → Outcome Bytes
unfolding encode_canonical_cbor
encode codec value = wrap (encode_canonical_cbor codec value)

-- `assertCanonicalCbor` of the protocol, with the default limits.
unfoldable pub assert_canonical : TextCodec → Bytes → Outcome CborValue
unfolding assert_canonical_cbor
assert_canonical codec bytes = wrap (assert_canonical_cbor codec default_decode_limits bytes)
