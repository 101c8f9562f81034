-- ===== src/Canonical/Cbor/Shape.antt =====
-- Which values the decoder of packages/canonical/src/cbor.ts can give back: those within its limits, whose
-- maps are in the order of the encoded keys.
use chronolog_db.Prelude.{
  ℕ, zero, suc, Bool, true, false, ◌&&◌, ◌||◌, Option, none, some, [], ltb, leb, length,
}
use chronolog_db.Prelude.Int.{ℤ, pos, negsuc}
use chronolog_db.Bytes.{Bytes}
use chronolog_db.Canonical.{TextCodec, passed, refused}
use chronolog_db.Canonical.Cbor.{
  CborMapKey, key_integer, key_text, key_bytes, CborValue, CborItems, CborEntries, cbor_null,
  cbor_boolean, cbor_integer, cbor_text, cbor_bytes, cbor_array, cbor_map, no_items, item,
  no_entries, entry, max_uint64, octets, count_items, encode_key,
}
use chronolog_db.Canonical.Cbor.Decode.{DecodeLimits, max_safe, follows_key}

unfoldable pub count_entries : CborEntries → ℕ
count_entries no_entries = 0
count_entries (entry k v es) = suc (count_entries es)

-- The value that a key is encoded as.
abbrev pub value_of_key : CborMapKey → CborValue
value_of_key (key_integer n) = cbor_integer n
value_of_key (key_text text) = cbor_text text
value_of_key (key_bytes bytes) = cbor_bytes bytes

abbrev pub is_size_below : ℕ → ℕ → Bool
is_size_below size limit = leb size max_safe && leb size limit

-- An unsigned number of 64 bits, or one whose octets fit.
abbrev pub magnitude_fits : DecodeLimits → ℕ → ℕ → Bool
magnitude_fits limits room n =
    leb n max_uint64 || (ltb 1 room && is_size_below (length (octets n n [])) limits.max_blob_bytes)

abbrev pub integer_fits : DecodeLimits → ℕ → ℤ → Bool
integer_fits limits room (pos n) = magnitude_fits limits room n
integer_fits limits room (negsuc n) = magnitude_fits limits room n

module _ (codec : TextCodec) (limits : DecodeLimits) where
  unfoldable pub key_fits : ℕ → CborMapKey → Bool
  key_fits zero k = false
  key_fits (suc room) (key_integer n) = integer_fits limits room n
  key_fits (suc room) (key_text text) =
      is_size_below (length (codec.encode text)) limits.max_text_bytes
  key_fits (suc room) (key_bytes bytes) = is_size_below (length bytes) limits.max_blob_bytes

  unfoldable mutual
    unfolding count_items count_entries key_fits

    -- The value is within the limits, with `room` levels left.
    pub value_fits : ℕ → CborValue → Bool
    value_fits zero v = false
    value_fits (suc room) cbor_null = true
    value_fits (suc room) (cbor_boolean b) = true
    value_fits (suc room) (cbor_integer n) = integer_fits limits room n
    value_fits (suc room) (cbor_text text) =
        is_size_below (length (codec.encode text)) limits.max_text_bytes
    value_fits (suc room) (cbor_bytes bytes) = is_size_below (length bytes) limits.max_blob_bytes
    value_fits (suc room) (cbor_array items) =
        is_size_below (count_items items) limits.max_array_items && items_fit room items
    value_fits (suc room) (cbor_map entries) =
        is_size_below (count_entries entries) limits.max_map_items && entries_fit room entries

    pub items_fit : ℕ → CborItems → Bool
    items_fit room no_items = true
    items_fit room (item v vs) = value_fits room v && items_fit room vs

    pub entries_fit : ℕ → CborEntries → Bool
    entries_fit room no_entries = true
    entries_fit room (entry k v es) = key_fits room k && value_fits room v && entries_fit room es

module _ (codec : TextCodec) where
  unfoldable mutual
    -- The entries of each map are in the order of their encoded keys.
    pub is_canonical : CborValue → Bool
    is_canonical (cbor_array items) = are_canonical items
    is_canonical (cbor_map entries) = ascends none entries
    is_canonical _ = true

    pub are_canonical : CborItems → Bool
    are_canonical no_items = true
    are_canonical (item v vs) = is_canonical v && are_canonical vs

    -- The entries ascend, and the first is above the key before.
    pub ascends : Option Bytes → CborEntries → Bool
    ascends previous no_entries = true
    ascends previous (entry k v es) = elim (encode_key codec k) [
      | refused e ↦ false
      | passed key ↦ follows_key previous key && is_canonical v && ascends (some key) es
    ]
