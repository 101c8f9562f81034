-- ===== src/Canonical/Cbor/Leaves.antt =====
-- For packages/canonical/src/cbor.ts: values without parts are decoded to what they were.
use chronolog_db.Prelude.{
  ℕ, zero, suc, ◌≡◌, refl, Bool, true, false, [], ◌∷◌, ◌++◌, arith, subst, String_eq,
}
use chronolog_db.Bytes.{Bytes}
use chronolog_db.Canonical.{TextCodec, passed}
use chronolog_db.Canonical.Cbor.{
  CborValue, cbor_null, cbor_boolean, cbor_integer, cbor_text, cbor_bytes, cbor_array, cbor_map,
  encode_canonical_cbor,
}
use chronolog_db.Canonical.Cbor.Decode.{DecodeLimits, read_value}
use chronolog_db.Canonical.Cbor.Scalars.{read_value-blob, read_value-text, read_value-integer}
use chronolog_db.Canonical.Cbor.Shape.{value_fits}

module _ (codec : TextCodec) (limits : DecodeLimits) where
  abbrev is_simple : CborValue → Bool
  is_simple (cbor_array vs) = false
  is_simple (cbor_map es) = false
  is_simple _ = true

  byte_value :
      (v : CborValue) (b room : ℕ) (enc rest : Bytes)
      → b ∷ [] ≡ enc
      → read_value codec limits (suc room) (b ∷ rest) ≡ passed (v, rest)
      → read_value codec limits (suc room) (enc ++ rest) ≡ passed (v, rest)
  byte_value v b room enc rest whole reads =
      subst (λ z. read_value codec limits (suc room) (z ++ rest) ≡ passed (v, rest)) whole reads

  -- The values without parts.
  pub read_simple_values :
      (v : CborValue) (room : ℕ) (enc rest : Bytes)
      → encode_canonical_cbor codec v ≡ passed enc
      → value_fits codec limits room v ≡ true
      → is_simple v ≡ true
      → read_value codec limits room (enc ++ rest) ≡ passed (v, rest)
  unfolding encode_canonical_cbor value_fits read_value
  read_simple_values v zero enc rest h fits simple = cc
  read_simple_values cbor_null (suc room) enc rest h fits simple =
      byte_value cbor_null 0xf6 room enc rest (ground arith) refl
  read_simple_values (cbor_boolean false) (suc room) enc rest h fits simple =
      byte_value (cbor_boolean false) 0xf4 room enc rest (ground arith) refl
  read_simple_values (cbor_boolean true) (suc room) enc rest h fits simple =
      byte_value (cbor_boolean true) 0xf5 room enc rest (ground arith) refl
  read_simple_values (cbor_integer n) (suc room) enc rest h fits simple =
      read_value-integer codec limits room n enc rest h fits
  read_simple_values (cbor_text text) (suc room) enc rest h fits simple =
      read_value-text codec limits room text enc rest h fits
  read_simple_values (cbor_bytes bytes) (suc room) enc rest h fits simple =
      read_value-blob codec limits room bytes enc rest h fits
  read_simple_values _ (suc room) enc rest h fits simple = cc
