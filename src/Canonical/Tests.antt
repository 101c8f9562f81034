-- ===== src/Canonical/Tests.antt =====
-- Runs of the canonical package's model at concrete inputs.
use chronolog_db.Prelude.{
  ◌≡◌, refl, true, some, [], ◌∷◌, ◌==◌, String_eq, option_beq, sort, insert_sorted, if◌then◌else◌,
}
use chronolog_db.Prelude.Int.{pos, negsuc}
use chronolog_db.Bytes.{Bytes, compare_bytes, bytes_equal}
use chronolog_db.Canonical.{TextCodec, passed}
use chronolog_db.Canonical.BigEndian.{big_endian}
use chronolog_db.Canonical.Fixed.{int64, int64_bytes, read, read-write}
use chronolog_db.Canonical.Cbor.{
  CborValue, cbor_boolean, cbor_integer, cbor_bytes, cbor_array, cbor_map, item, no_items, entry,
  no_entries, key_integer, key_text, encode_canonical_cbor, encode_key,
}
use chronolog_db.Canonical.Cbor.Decode.{default_decode_limits, assert_canonical_cbor}
use chronolog_db.Canonical.Cbor.Shape.{value_fits}
use chronolog_db.Canonical.Cbor.InOrder.{in_order}
use chronolog_db.Canonical.Cbor.RoundTrip.{assert_canonical_cbor-encode_canonical_cbor}

-- Two texts, with their bytes in UTF-8.
abbrev two_texts : TextCodec
two_texts = record {
  encode = λ text. if text == "é" then 195 ∷ 169 ∷ [] else 97 ∷ [];
  decode = λ bytes. some "é";
}

-- {1: true, 2: -2, "é": [h'00ff', 2^64]}
abbrev sample : CborValue
sample = cbor_map (
    entry (key_integer (pos 1)) (cbor_boolean true) (
      entry (key_integer (pos 2)) (cbor_integer (negsuc 1)) (
        entry (key_text "é")
          (cbor_array (
            item (cbor_bytes (0 ∷ 255 ∷ []))
              (item (cbor_integer (pos 18446744073709551616)) no_items)))
          no_entries)))

-- The same entries in another order.
abbrev shuffled : CborValue
shuffled = cbor_map (
    entry (key_text "é")
      (cbor_array (
        item (cbor_bytes (0 ∷ 255 ∷ [])) (item (cbor_integer (pos 18446744073709551616)) no_items)))
      (entry (key_integer (pos 2)) (cbor_integer (negsuc 1))
        (entry (key_integer (pos 1)) (cbor_boolean true) no_entries)))

shuffled_lem : in_order two_texts shuffled ≡ sample
unfolding in_order encode_key option_beq compare_bytes
shuffled_lem = refl

abbrev sample_bytes : Bytes
sample_bytes =
    0xa3 ∷ 1 ∷ 0xf5 ∷ 2 ∷ 0x21 ∷ 0x62 ∷ 195 ∷ 169 ∷ 0x82 ∷ 0x42 ∷ 0 ∷ 255 ∷ 0xc2 ∷ 0x49 ∷ 1 ∷ 0 ∷ 0
    ∷ 0 ∷ 0 ∷ 0 ∷ 0 ∷ 0 ∷ 0 ∷ []

read-write_example :
    read int64 (255 ∷ 255 ∷ 255 ∷ 255 ∷ 255 ∷ 255 ∷ 255 ∷ 254 ∷ []) ≡ passed (negsuc 1)
unfolding int64_bytes big_endian
read-write_example =
    read-write int64 (negsuc 1) (255 ∷ 255 ∷ 255 ∷ 255 ∷ 255 ∷ 255 ∷ 255 ∷ 254 ∷ []) refl

assert_canonical_cbor-encode_canonical_cbor_example :
    assert_canonical_cbor two_texts default_decode_limits sample_bytes
    ≡ passed (in_order two_texts shuffled)
unfolding encode_canonical_cbor value_fits option_beq sort insert_sorted compare_bytes bytes_equal
assert_canonical_cbor-encode_canonical_cbor_example =
    assert_canonical_cbor-encode_canonical_cbor two_texts default_decode_limits shuffled
      sample_bytes refl refl refl
