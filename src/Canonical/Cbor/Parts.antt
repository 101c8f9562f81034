-- ===== src/Canonical/Cbor/Parts.antt =====
-- For packages/canonical/src/cbor.ts: the parts of what is encoded.
use chronolog_db.Prelude.{
  ◌≡◌, refl, Bool, true, ◌&&◌, none, List, ◌++◌, arith, length, inl, inr, subst, String_eq,
}
use chronolog_db.Bytes.{Bytes}
use chronolog_db.Canonical.{TextCodec, Checked-cases, passed, ◌>>=◌}
use chronolog_db.Canonical.Cbor.{
  CborMapKey, key_integer, key_text, key_bytes, CborValue, CborItems, CborEntries, cbor_array,
  cbor_map, item, encode_head, encode_map, concat_entries, encode_canonical_cbor, encode_items,
  encode_entries, count_items,
}
use chronolog_db.Canonical.Cbor.Decode.{as_key}
use chronolog_db.Canonical.Cbor.Heads.{IsHead}
use chronolog_db.Canonical.Cbor.Scalars.{encode_head-IsHead}
use chronolog_db.Canonical.Cbor.Shape.{value_of_key, ascends, count_entries}
use chronolog_db.Canonical.Cbor.KeyOrder.{
  Ascending, sort-Ascending, has_duplicate_key-Ascending, encode_entries-Ascending,
}

pub both_items : (a b : Bool) → (a && b) ≡ true → (a ≡ true) × (b ≡ true)
both_items a b h = ground arith

pub three : (a b c : Bool) → (a && b && c) ≡ true → (a ≡ true) × ((b ≡ true) × (c ≡ true))
three a b c h = ground arith

pub as_key-value_of_key : (k : CborMapKey) → as_key (value_of_key k) ≡ passed k
as_key-value_of_key (key_integer n) = refl
as_key-value_of_key (key_text text) = refl
as_key-value_of_key (key_bytes bytes) = refl

module _ (codec : TextCodec) where
  pub item_parts :
      (v : CborValue) (vs : CborItems) (enc : Bytes)
      → encode_items codec (item v vs) ≡ passed enc
      → (bytes : Bytes) × (body : Bytes) × (encode_canonical_cbor codec v ≡ passed bytes)
        × (encode_items codec vs ≡ passed body)
        × (bytes ++ body ≡ enc)
  unfolding encode_canonical_cbor
  item_parts v vs enc h = elim (Checked-cases (encode_canonical_cbor codec v)) [
    | inr (e, bad) ↦ absurd (ground (arith, bad, h))
    | inl (bytes, good) ↦ elim (Checked-cases (encode_items codec vs)) [
      | inr (e, bad) ↦ absurd (ground (arith, good, bad, h))
      | inl (body, more) ↦ (bytes, body, good, more, ground (arith, good, more, h))
    ]
  ]

  pub array_parts :
      (vs : CborItems) (enc : Bytes)
      → encode_canonical_cbor codec (cbor_array vs) ≡ passed enc
      → (head : Bytes) × (body : Bytes) × IsHead 4 (count_items vs) head
        × (encode_items codec vs ≡ passed body)
        × (head ++ body ≡ enc)
  unfolding encode_canonical_cbor
  array_parts vs enc h = elim (Checked-cases (encode_head 4 (count_items vs))) [
    | inr (e, bad) ↦ absurd (ground (arith, bad, h))
    | inl (head, good) ↦ elim (Checked-cases (encode_items codec vs)) [
      | inr (e, bad) ↦ absurd (ground (arith, good, bad, h))
      | inl (body, more) ↦ (
        head,
        body,
        encode_head-IsHead 4 (count_items vs) head good,
        more,
        ground (arith, good, more, h),
      )
    ]
  ]

  encode_map-parts :
      (encoded : List (Bytes × Bytes)) (enc : Bytes)
      → Ascending none encoded
      → encode_map encoded ≡ passed enc
      → (head : Bytes) × IsHead 5 (length encoded) head × (head ++ concat_entries encoded ≡ enc)
  unfolding encode_map
  encode_map-parts encoded enc up h =
      let sorted = sort-Ascending none encoded up in
      let unique = has_duplicate_key-Ascending none encoded up in
      let h' : (encode_head 5 (length encoded) >>= λ head. passed (head ++ concat_entries encoded))
          ≡ passed enc =
        rw (sorted, unique, encode_map) at h in
      elim (Checked-cases (encode_head 5 (length encoded))) [
        | inr (e, bad) ↦ absurd (ground (arith, bad, h'))
        | inl (head, good) ↦
            (head, encode_head-IsHead 5 (length encoded) head good, ground (arith, good, h'))
      ]

  pub map_parts :
      (es : CborEntries) (enc : Bytes)
      → encode_canonical_cbor codec (cbor_map es) ≡ passed enc
      → ascends codec none es ≡ true
      → (head : Bytes) × (encoded : List (Bytes × Bytes)) × IsHead 5 (count_entries es) head
        × (encode_entries codec es ≡ passed encoded)
        × (head ++ concat_entries encoded ≡ enc)
  unfolding encode_canonical_cbor
  map_parts es enc h up = elim (Checked-cases (encode_entries codec es)) [
    | inr (e, bad) ↦ absurd (ground (arith, bad, h))
    | inl (encoded, good) ↦
        let (ascending, count) = encode_entries-Ascending codec none es encoded good up in
        let (head, is_head, whole) = encode_map-parts encoded enc ascending (rw good at h) in
        (head, encoded, subst (λ n. IsHead 5 n head) count is_head, good, whole)
  ]
