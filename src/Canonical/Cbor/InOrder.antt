-- ===== src/Canonical/Cbor/InOrder.antt =====
-- For packages/canonical/src/cbor.ts: a value with the entries of each map in the order in which they are
-- encoded, shorter encoded keys first and bytewise among those of one length.
use chronolog_db.Prelude.{
  ◌≡◌, refl, Bool, false, List, [], ◌∷◌, arith, insert_sorted, inl, inr, subst, if◌then◌else◌,
  Ordering, is_gt,
}
use chronolog_db.Bytes.{Bytes}
use chronolog_db.Canonical.{TextCodec, Checked-cases, passed, refused}
use chronolog_db.Canonical.Cbor.{
  CborMapKey, CborValue, CborItems, CborEntries, cbor_array, cbor_map, no_items, item, no_entries,
  entry, key_order, encode_key, encode_canonical_cbor, encode_entries,
}

-- The comparator of encoded entries.
abbrev pub by_key : Bytes × Bytes → Bytes × Bytes → Ordering
by_key a b = key_order a.0 b.0

module _ (codec : TextCodec) where
  -- Whether a key has its place behind another one.
  abbrev pub is_behind : CborMapKey → CborMapKey → Bool
  is_behind k j = elim (encode_key codec k) [
    | refused e ↦ false
    | passed a ↦ elim (encode_key codec j) [ refused e ↦ false | passed b ↦ is_gt (key_order a b) ]
  ]

  unfoldable pub insert_entry : CborMapKey → CborValue → CborEntries → CborEntries
  insert_entry k v no_entries = entry k v no_entries
  insert_entry k v (entry j w es) =
      let rest = insert_entry k v es in
      if is_behind k j then entry j w rest else entry k v (entry j w es)

  unfoldable mutual
    unfolding insert_entry

    pub in_order : CborValue → CborValue
    in_order (cbor_array items) = cbor_array (items_in_order items)
    in_order (cbor_map entries) = cbor_map (entries_in_order entries)
    in_order v = v

    pub items_in_order : CborItems → CborItems
    items_in_order no_items = no_items
    items_in_order (item v vs) = item (in_order v) (items_in_order vs)

    pub entries_in_order : CborEntries → CborEntries
    entries_in_order no_entries = no_entries
    entries_in_order (entry k v es) = insert_entry k (in_order v) (entries_in_order es)

  pub entry_parts :
      (k : CborMapKey) (v : CborValue) (es : CborEntries) (encoded : List (Bytes × Bytes))
      → encode_entries codec (entry k v es) ≡ passed encoded
      → (key : Bytes) × (bytes : Bytes) × (rest : List (Bytes × Bytes)) × (encode_key codec k
          ≡ passed key)
        × (encode_canonical_cbor codec v ≡ passed bytes)
        × (encode_entries codec es ≡ passed rest)
        × ((key, bytes) ∷ rest ≡ encoded)
  unfolding encode_canonical_cbor
  entry_parts k v es encoded h = elim (Checked-cases (encode_key codec k)) [
    | inr (e, bad) ↦ absurd (ground (arith, bad, h))
    | inl (key, is_key) ↦ elim (Checked-cases (encode_canonical_cbor codec v)) [
      | inr (e, bad) ↦ absurd (ground (arith, is_key, bad, h))
      | inl (bytes, is_bytes) ↦ elim (Checked-cases (encode_entries codec es)) [
        | inr (e, bad) ↦ absurd (ground (arith, is_key, is_bytes, bad, h))
        | inl (rest, is_rest) ↦ (
          key,
          bytes,
          rest,
          is_key,
          is_bytes,
          is_rest,
          ground (arith, is_key, is_bytes, is_rest, h),
        )
      ]
    ]
  ]

  -- An entry is inserted among entries as its encoding is among theirs.
  pub encode_entries-insert_entry :
      (k : CborMapKey) (v : CborValue) (es : CborEntries) (key bytes : Bytes)
      (rest : List (Bytes × Bytes))
      → encode_key codec k ≡ passed key
      → encode_canonical_cbor codec v ≡ passed bytes
      → encode_entries codec es ≡ passed rest
      → encode_entries codec (insert_entry k v es) ≡ passed (insert_sorted by_key (key, bytes) rest)
  unfolding encode_canonical_cbor insert_entry insert_sorted
  encode_entries-insert_entry k v no_entries key bytes rest is_key is_bytes is_rest =
      let empty : [] ≡ rest = ground arith in
      subst
        (λ z.
          encode_entries codec (entry k v no_entries)
          ≡ passed (insert_sorted by_key (key, bytes) z))
        empty (rw (is_key, is_bytes) refl)
  encode_entries-insert_entry k v (entry j w es) key bytes rest is_key is_bytes is_rest =
      let (key', bytes', rest', is_key', is_bytes', is_rest', whole) =
        entry_parts j w es rest is_rest in
      let more = encode_entries-insert_entry k v es key bytes rest' is_key is_bytes is_rest' in
      subst
        (λ z.
          encode_entries codec (insert_entry k v (entry j w es))
          ≡ passed (insert_sorted by_key (key, bytes) z))
        whole (ground (arith, is_key, is_bytes, is_key', is_bytes', is_rest', more))
