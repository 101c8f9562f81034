-- ===== src/Canonical/Cbor/Decode.antt =====
-- The decoder of packages/canonical/src/cbor.ts. Its state is the input that is left, and what a key was
-- read from is what the input has lost by it. The depth is counted down from the limit.
use chronolog_db.Prelude.{
  ℕ, zero, suc, ◌-◌, ◌/◌, ◌%◌, Bool, true, false, not, ◌&&◌, ◌||◌, Option, none, some, [], ◌∷◌, ltb,
  leb, nat_eq, length, take, drop, is_lt, if◌then◌else◌, ◌==◌, String_eq,
}
use chronolog_db.Prelude.Int.{ℤ, pos, negsuc, is_same}
use chronolog_db.Bytes.{Bytes, bytes_equal}
use chronolog_db.Canonical.{
  Checked, passed, refused, ◌>>=◌, ◌>>◌, canonical_invariant, cbor_invalid, cbor_non_canonical,
  cbor_limit_exceeded, TextCodec, decode_utf8,
}
use chronolog_db.Canonical.BigEndian.{from_big_endian}
use chronolog_db.Canonical.Cbor.{
  CborMapKey, key_integer, key_text, key_bytes, CborValue, CborItems, CborEntries, cbor_null,
  cbor_boolean, cbor_integer, cbor_text, cbor_bytes, cbor_array, cbor_map, no_items, item,
  no_entries, entry, max_uint64, key_order, encode_canonical_cbor,
}

pub record DecodeLimits : Type 0 where
  pub max_bytes : ℕ
  pub max_depth : ℕ
  pub max_array_items : ℕ
  pub max_map_items : ℕ
  pub max_text_bytes : ℕ
  pub max_blob_bytes : ℕ

abbrev pub default_decode_limits : DecodeLimits
default_decode_limits = record {
  max_bytes = 16777216;
  max_depth = 64;
  max_array_items = 1000000;
  max_map_items = 100000;
  max_text_bytes = 4194304;
  max_blob_bytes = 16777216;
}

-- `Number.MAX_SAFE_INTEGER`
abbrev pub max_safe : ℕ
max_safe = 9007199254740991

-- What is read off the front of the input, and the input that is left.
abbrev Reader {ℓ} : Type ℓ → Type ℓ
Reader A = Bytes → Checked (A × Bytes)

abbrev read_byte : Reader ℕ
read_byte [] = refused cbor_invalid
read_byte (b ∷ rest) = passed (b, rest)

unfoldable pub read_bytes : ℕ → Reader Bytes
read_bytes size input =
    if leb size (length input)
    then passed (take size input, drop size input)
    else refused cbor_invalid

-- A number of `size` bytes, which must be above the largest that a shorter head could hold.
unfoldable pub read_number : ℕ → ℕ → Reader ℕ
unfolding read_bytes
read_number size least input = read_bytes size input >>= λ (bytes, rest).
    canonical_invariant (leb least (from_big_endian 0 bytes)) cbor_non_canonical
    >> passed (from_big_endian 0 bytes, rest)

unfoldable pub read_argument : ℕ → Reader ℕ
unfolding read_number
read_argument additional input =
    if ltb additional 24
    then passed (additional, input)
    else if nat_eq additional 24
    then read_number 1 24 input
    else if nat_eq additional 25
    then read_number 2 0x100 input
    else if nat_eq additional 26
    then read_number 4 0x10000 input
    else if nat_eq additional 27
    then read_number 8 0x100000000 input
    else if nat_eq additional 31
    then refused cbor_non_canonical
    else refused cbor_invalid

-- Whether the first byte is there and not zero.
abbrev pub starts_above_zero : Bytes → Bool
starts_above_zero [] = true
starts_above_zero (b ∷ bytes) = not (nat_eq b 0)

abbrev pub of_tag : ℕ → ℕ → ℤ
of_tag tag magnitude = if nat_eq tag 2 then pos magnitude else negsuc magnitude

unfoldable pub check_magnitude : ℕ → Bytes → Checked ℤ
check_magnitude tag bytes = do
  canonical_invariant (ltb 8 (length bytes) && starts_above_zero bytes) cbor_non_canonical
  canonical_invariant (ltb max_uint64 (from_big_endian 0 bytes)) cbor_non_canonical
  passed (of_tag tag (from_big_endian 0 bytes))

-- `bignum`, with `room` levels left below the value.
unfoldable pub read_bignum : DecodeLimits → ℕ → ℕ → Reader ℤ
unfolding read_argument read_bytes check_magnitude
read_bignum limits room tag input = do
  canonical_invariant (nat_eq tag 2 || nat_eq tag 3) cbor_invalid
  canonical_invariant (ltb 1 room) cbor_limit_exceeded
  (initial, rest) ← read_byte input
  canonical_invariant (nat_eq (initial / 32) 2) cbor_invalid
  (size, rest') ← read_argument (initial % 32) rest
  canonical_invariant (leb size max_safe) cbor_limit_exceeded
  canonical_invariant (leb size limits.max_blob_bytes) cbor_limit_exceeded
  (bytes, rest'') ← read_bytes size rest'
  n ← check_magnitude tag bytes
  passed (n, rest'')

abbrev read_simple : ℕ → Reader CborValue
read_simple additional rest =
    if nat_eq additional 20
    then passed (cbor_boolean false, rest)
    else if nat_eq additional 21
    then passed (cbor_boolean true, rest)
    else if nat_eq additional 22
    then passed (cbor_null, rest)
    else refused cbor_invalid

abbrev pub as_key : CborValue → Checked CborMapKey
as_key (cbor_integer n) = passed (key_integer n)
as_key (cbor_text text) = passed (key_text text)
as_key (cbor_bytes bytes) = passed (key_bytes bytes)
as_key _ = refused cbor_invalid

-- `Map.set`, where byte strings are objects and so never the same key.
abbrev pub same_key : CborMapKey → CborMapKey → Bool
same_key (key_integer m) (key_integer n) = is_same m n
same_key (key_text s) (key_text t) = s == t
same_key _ _ = false

unfoldable pub set_entry : CborMapKey → CborValue → CborEntries → CborEntries
set_entry k v no_entries = entry k v no_entries
set_entry k v (entry j w es) =
    let rest = set_entry k v es in if same_key j k then entry j v es else entry j w rest

abbrev pub follows_key : Option Bytes → Bytes → Bool
follows_key none encoded = true
follows_key (some previous) encoded = is_lt (key_order previous encoded)

-- What was read between two states of the input.
abbrev pub consumed : Bytes → Bytes → Bytes
consumed input rest = take (length input - length rest) input

-- The loops over the elements of an array and the entries of a map.
unfoldable pub read_items : Reader CborValue → ℕ → Reader CborItems
read_items read zero input = passed (no_items, input)
read_items read (suc n) input = do
  (v, rest) ← read input
  (vs, rest') ← read_items read n rest
  passed (item v vs, rest')

unfoldable pub read_entries : Reader CborValue → ℕ → Option Bytes → CborEntries → Reader CborEntries
unfolding set_entry
read_entries read zero previous map input = passed (map, input)
read_entries read (suc n) previous map input = do
  (value, rest) ← read input
  key ← as_key value
  let encoded = consumed input rest
  canonical_invariant (follows_key previous encoded) cbor_non_canonical
  (v, rest') ← read rest
  read_entries read n (some encoded) (set_entry key v map) rest'

module _ (codec : TextCodec) (limits : DecodeLimits) where
  -- The kinds of value that have a size.
  unfoldable pub read_sized : Reader CborValue → ℕ → ℕ → Reader CborValue
  unfolding read_bytes decode_utf8 read_items read_entries
  read_sized read major size input =
      if not (leb size max_safe)
      then refused cbor_limit_exceeded
      else if nat_eq major 2
      then (do
        canonical_invariant (leb size limits.max_blob_bytes) cbor_limit_exceeded
        (bytes, rest) ← read_bytes size input
        passed (cbor_bytes bytes, rest))
      else if nat_eq major 3
      then (do
        canonical_invariant (leb size limits.max_text_bytes) cbor_limit_exceeded
        (bytes, rest) ← read_bytes size input
        text ← decode_utf8 codec bytes
        passed (cbor_text text, rest))
      else if nat_eq major 4
      then (do
        canonical_invariant (leb size limits.max_array_items) cbor_limit_exceeded
        (items, rest) ← read_items read size input
        passed (cbor_array items, rest))
      else if nat_eq major 5
      then (do
        canonical_invariant (leb size limits.max_map_items) cbor_limit_exceeded
        (entries, rest) ← read_entries read size none no_entries input
        passed (cbor_map entries, rest))
      else refused cbor_invalid

  -- What follows the initial byte and its argument.
  unfoldable pub read_kind : Reader CborValue → ℕ → ℕ → ℕ → Reader CborValue
  unfolding read_bignum read_sized
  read_kind read room major argument input =
      if nat_eq major 6
      then (do (n, rest) ← read_bignum limits room argument input; passed (cbor_integer n, rest))
      else if nat_eq major 0
      then passed (cbor_integer (pos argument), input)
      else if nat_eq major 1
      then passed (cbor_integer (negsuc argument), input)
      else read_sized read major argument input

  -- `value`, where `room` is one more than the levels that are left below this one.
  unfoldable pub read_value : ℕ → Reader CborValue
  unfolding read_argument read_kind
  read_value zero input = refused cbor_limit_exceeded
  read_value (suc room) input = do
    (initial, rest) ← read_byte input
    if nat_eq (initial / 32) 7 then read_simple (initial % 32) rest else (do
      (argument, rest') ← read_argument (initial % 32) rest
      read_kind (read_value room) room (initial / 32) argument rest')

  unfoldable pub decode_canonical_cbor : Bytes → Checked CborValue
  unfolding read_value
  decode_canonical_cbor input = do
    canonical_invariant (leb (length input) limits.max_bytes) cbor_limit_exceeded
    (value, rest) ← read_value (suc limits.max_depth) input
    canonical_invariant (nat_eq (length rest) 0) cbor_invalid
    passed value

  unfoldable pub assert_canonical_cbor : Bytes → Checked CborValue
  unfolding decode_canonical_cbor encode_canonical_cbor
  assert_canonical_cbor input = do
    value ← decode_canonical_cbor input
    encoded ← encode_canonical_cbor codec value
    canonical_invariant (bytes_equal encoded input) cbor_non_canonical
    passed value
