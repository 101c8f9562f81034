-- ===== src/Canonical/Cbor/RoundTrip.antt =====
-- For packages/canonical/src/cbor.ts: what is encoded is decoded to the same value.
use chronolog_db.Prelude.{suc, ◌≡◌, refl, ap, sym, ◌∙◌, true, [], length, leb, String_eq}
use mathlib.Core.List.{append-nil}
use chronolog_db.Bytes.{Bytes, bytes_equal}
use chronolog_db.Bytes.Laws.{bytes_equal_iff}
use chronolog_db.Canonical.{TextCodec, passed}
use chronolog_db.Canonical.Cbor.{
  CborValue, cbor_null, cbor_boolean, cbor_integer, cbor_text, cbor_bytes, cbor_array, cbor_map,
  no_items, item, no_entries, entry, encode_canonical_cbor,
}
use chronolog_db.Canonical.Cbor.Decode.{
  DecodeLimits, read_value, decode_canonical_cbor, assert_canonical_cbor,
}
use chronolog_db.Canonical.Cbor.Shape.{value_fits, is_canonical}
use chronolog_db.Canonical.Cbor.InOrder.{in_order}
use chronolog_db.Canonical.Cbor.Arranged.{in_order-Arranged, value_fits-in_order}
use chronolog_db.Canonical.Cbor.Leaves.{read_simple_values}
use chronolog_db.Canonical.Cbor.Containers.{
  Reads, ReadsItems, ReadsEntries, read_entries-entry, read_items-item, read_array, read_map,
  read_no_items, read_no_entries,
}

module _ (codec : TextCodec) (limits : DecodeLimits) where
  read_value-Reads : (v : CborValue) → Reads codec limits v
  unfolding encode_canonical_cbor is_canonical value_fits
  read_value-Reads v =
      elim v as (Reads codec limits) (ReadsItems codec limits) (ReadsEntries codec limits) [
        | cbor_array (vs → ih) ↦ read_array codec limits vs ih
        | cbor_map (es → ih) ↦ read_map codec limits es ih
        | no_items ↦ read_no_items codec limits
        | item (v → ih) (vs → ihs) ↦ read_items-item codec limits v vs ih ihs
        | no_entries ↦ read_no_entries codec limits
        | entry k (v → ih) (es → ihs) ↦ read_entries-entry codec limits k v es ih ihs
        | cbor_null ↦ λ room enc rest h canonical fits.
            read_simple_values codec limits cbor_null room enc rest h fits refl
        | cbor_boolean b ↦ λ room enc rest h canonical fits.
            read_simple_values codec limits (cbor_boolean b) room enc rest h fits refl
        | cbor_integer n ↦ λ room enc rest h canonical fits.
            read_simple_values codec limits (cbor_integer n) room enc rest h fits refl
        | cbor_text text ↦ λ room enc rest h canonical fits.
            read_simple_values codec limits (cbor_text text) room enc rest h fits refl
        | cbor_bytes bytes ↦ λ room enc rest h canonical fits.
            read_simple_values codec limits (cbor_bytes bytes) room enc rest h fits refl
      ]

  decode_canonical_cbor-encode_canonical_cbor :
      (v : CborValue) (enc : Bytes)
      → encode_canonical_cbor codec v ≡ passed enc
      → is_canonical codec v ≡ true
      → value_fits codec limits (suc limits.max_depth) v ≡ true
      → leb (length enc) limits.max_bytes ≡ true
      → decode_canonical_cbor codec limits enc ≡ passed v
  unfolding decode_canonical_cbor
  decode_canonical_cbor-encode_canonical_cbor v enc h canonical fits short =
      let reads = read_value-Reads v (suc limits.max_depth) enc [] h canonical fits in
      let reads' =
        ap (read_value codec limits (suc limits.max_depth)) (sym (append-nil enc)) ∙ reads in
      rw (short, reads') refl

  -- A value whose entries are in order is accepted and given back as it is.
  pub assert_canonical_cbor-is_canonical :
      (v : CborValue) (enc : Bytes)
      → encode_canonical_cbor codec v ≡ passed enc
      → is_canonical codec v ≡ true
      → value_fits codec limits (suc limits.max_depth) v ≡ true
      → leb (length enc) limits.max_bytes ≡ true
      → assert_canonical_cbor codec limits enc ≡ passed v
  unfolding assert_canonical_cbor
  assert_canonical_cbor-is_canonical v enc h canonical fits short =
      let same : bytes_equal enc enc ≡ true = (bytes_equal_iff enc enc).1 refl in
      rw (decode_canonical_cbor-encode_canonical_cbor v enc h canonical fits short, h, same) refl

  -- If a value is encoded, and the value and the length of its encoding are within the limits, then the encoding
  -- is accepted as canonical and gives the value back with the entries of each of its maps sorted by their
  -- encoded keys, shorter ones first and bytewise among those of one length.
  pub assert_canonical_cbor-encode_canonical_cbor :
      (v : CborValue) (enc : Bytes)
      → encode_canonical_cbor codec v ≡ passed enc
      → value_fits codec limits (suc limits.max_depth) v ≡ true
      → leb (length enc) limits.max_bytes ≡ true
      → assert_canonical_cbor codec limits enc ≡ passed (in_order codec v)
  assert_canonical_cbor-encode_canonical_cbor v enc h fits short =
      let (same, canonical) = in_order-Arranged codec v enc h in
      assert_canonical_cbor-is_canonical (in_order codec v) enc same canonical
        (value_fits-in_order codec limits v (suc limits.max_depth) ∙ fits) short
