-- ===== src/Canonical/Cbor.antt =====
-- packages/canonical/src/cbor.ts: the values and their encoding. The decoder and the proofs are below.
pub mod Decode
pub mod Heads
pub mod Bignums
pub mod Shape
pub mod Scalars
pub mod KeyOrder
pub mod Maps
pub mod Parts
pub mod Leaves
pub mod Containers
pub mod InOrder
pub mod Sorted
pub mod Arranged
pub mod RoundTrip
use chronolog_db.Prelude.{
  ℕ, zero, suc, ◌+◌, ◌*◌, ◌/◌, ◌%◌, Ordering, compare, Bool, true, false, not, List, [], ◌∷◌, ◌++◌,
  String, ltb, leb, length, sort, or_else, if◌then◌else◌,
}
use chronolog_db.Prelude.Int.{ℤ, pos, negsuc}
use chronolog_db.Bytes.{Bytes, compare_bytes, bytes_equal}
use chronolog_db.Canonical.{
  Checked, passed, refused, ◌>>=◌, ◌>>◌, canonical_invariant, cbor_non_canonical,
  integer_out_of_range, TextCodec, utf8,
}
use chronolog_db.Canonical.BigEndian.{big_endian}

pub data CborMapKey : Type 0 where
  key_integer : ℤ → CborMapKey
  key_text : String → CborMapKey
  key_bytes : Bytes → CborMapKey

-- The elements of an array and the entries of a map are lists of their own.
mutual
  pub data CborValue : Type 0 where
    cbor_null : CborValue
    cbor_boolean : Bool → CborValue
    cbor_integer : ℤ → CborValue
    cbor_text : String → CborValue
    cbor_bytes : Bytes → CborValue
    cbor_array : CborItems → CborValue
    cbor_map : CborEntries → CborValue

  pub data CborItems : Type 0 where
    no_items : CborItems
    item : CborValue → CborItems → CborItems

  pub data CborEntries : Type 0 where
    no_entries : CborEntries
    entry : CborMapKey → CborValue → CborEntries → CborEntries

abbrev pub max_uint64 : ℕ
max_uint64 = 18446744073709551615

-- `(major << 5) | additional`, whose bits do not meet.
abbrev pub initial_byte : ℕ → ℕ → ℕ
initial_byte major additional = major * 32 + additional

unfoldable pub head_bytes : ℕ → ℕ → Bytes
head_bytes major value =
    if ltb value 24
    then initial_byte major value ∷ []
    else if leb value 0xff
    then initial_byte major 24 ∷ value ∷ []
    else if leb value 0xffff
    then initial_byte major 25 ∷ value / 256 ∷ value % 256 ∷ []
    else if leb value 0xffffffff
    then initial_byte major 26 ∷ big_endian 4 value
    else initial_byte major 27 ∷ big_endian 8 value

unfoldable pub encode_head : ℕ → ℕ → Checked Bytes
unfolding head_bytes
encode_head major value =
    canonical_invariant (leb value max_uint64) integer_out_of_range
    >> passed (head_bytes major value)

-- The loop of `magnitudeBytes` with `octets.reverse()`: the octets are pushed from the lowest one on.
-- It divides a number by 256 until nothing remains, so the number itself is enough fuel.
unfoldable pub octets : ℕ → ℕ → Bytes → Bytes
octets zero remaining above = above
octets (suc fuel) zero above = above
octets (suc fuel) (suc r) above = octets fuel (suc r / 256) (suc r % 256 ∷ above)

unfoldable pub magnitude_bytes : ℕ → Checked Bytes
unfolding octets
magnitude_bytes value =
    canonical_invariant (ltb max_uint64 value) integer_out_of_range
    >> passed (octets value value [])

-- A byte string behind its head.
unfoldable pub encode_blob : ℕ → Bytes → Checked Bytes
unfolding encode_head
encode_blob major bytes = encode_head major (length bytes) >>= λ head. passed (head ++ bytes)

unfoldable pub encode_bignum : ℕ → ℕ → Checked Bytes
unfolding encode_head magnitude_bytes encode_blob
encode_bignum tag magnitude = do
  bytes ← magnitude_bytes magnitude
  tagged ← encode_head 6 tag
  blob ← encode_blob 2 bytes
  passed (tagged ++ blob)

unfoldable pub encode_bigint : ℤ → Checked Bytes
unfolding encode_head encode_bignum
encode_bigint (pos n) = if leb n max_uint64 then encode_head 0 n else encode_bignum 2 n
encode_bigint (negsuc n) = if leb n max_uint64 then encode_head 1 n else encode_bignum 3 n

-- The comparator of the entries, on their encoded keys: by length, then bytewise. The core deterministic
-- encoding of RFC 8949 compares bytewise only.
abbrev pub key_order : Bytes → Bytes → Ordering
key_order a b = or_else (compare (length a) (length b)) (compare_bytes a b)

unfoldable pub has_duplicate_key : List (Bytes × Bytes) → Bool
has_duplicate_key [] = false
has_duplicate_key (e ∷ []) = false
has_duplicate_key (e ∷ f ∷ entries) =
    let rest = has_duplicate_key (f ∷ entries) in if bytes_equal e.0 f.0 then true else rest

unfoldable pub concat_entries : List (Bytes × Bytes) → Bytes
concat_entries [] = []
concat_entries (e ∷ entries) = e.0 ++ (e.1 ++ concat_entries entries)

unfoldable pub count_items : CborItems → ℕ
count_items no_items = 0
count_items (item v vs) = suc (count_items vs)

unfoldable pub encode_map : List (Bytes × Bytes) → Checked Bytes
unfolding encode_head has_duplicate_key concat_entries
encode_map encoded =
    let entries = sort (λ a b. key_order a.0 b.0) encoded in
    do
      canonical_invariant (not (has_duplicate_key entries)) cbor_non_canonical
      head ← encode_head 5 (length entries)
      passed (head ++ concat_entries entries)

module _ (codec : TextCodec) where
  unfoldable pub encode_text : String → Checked Bytes
  unfolding utf8 encode_blob
  encode_text text = utf8 codec text >>= encode_blob 3

  unfoldable pub encode_key : CborMapKey → Checked Bytes
  unfolding encode_bigint encode_blob encode_text
  encode_key (key_integer n) = encode_bigint n
  encode_key (key_text text) = encode_text text
  encode_key (key_bytes bytes) = encode_blob 2 bytes

  unfoldable mutual
    unfolding encode_head encode_bigint encode_blob encode_text encode_key encode_map count_items

    -- `encodeCanonicalCbor`
    pub encode_canonical_cbor : CborValue → Checked Bytes
    encode_canonical_cbor cbor_null = passed (0xf6 ∷ [])
    encode_canonical_cbor (cbor_boolean false) = passed (0xf4 ∷ [])
    encode_canonical_cbor (cbor_boolean true) = passed (0xf5 ∷ [])
    encode_canonical_cbor (cbor_integer n) = encode_bigint n
    encode_canonical_cbor (cbor_text text) = encode_text text
    encode_canonical_cbor (cbor_bytes bytes) = encode_blob 2 bytes
    encode_canonical_cbor (cbor_array items) = do
      head ← encode_head 4 (count_items items)
      body ← encode_items items
      passed (head ++ body)
    encode_canonical_cbor (cbor_map entries) = encode_entries entries >>= encode_map

    pub encode_items : CborItems → Checked Bytes
    encode_items no_items = passed []
    encode_items (item v vs) = do
      bytes ← encode_canonical_cbor v
      rest ← encode_items vs
      passed (bytes ++ rest)

    -- The encoded entries, before they are sorted.
    pub encode_entries : CborEntries → Checked (List (Bytes × Bytes))
    encode_entries no_entries = passed []
    encode_entries (entry k v es) = do
      key ← encode_key k
      bytes ← encode_canonical_cbor v
      rest ← encode_entries es
      passed ((key, bytes) ∷ rest)
