-- ===== src/Canonical/Cbor/Scalars.antt =====
-- For packages/canonical/src/cbor.ts: an encoded number, text or byte string is read back.
use chronolog_db.Prelude.{
  ◌⊎◌, ℕ, zero, suc, ◌≡◌, refl, ap, ◌∙◌, true, false, ◌||◌, [], ◌++◌, String, arith, length, ltb,
  leb, Bool-cases, inl, inr, nat_eq, subst, some, option_beq_iff, Option_eq, String_eq,
}
use mathlib.Core.List.{append_assoc}
use chronolog_db.Prelude.Int.{ℤ, pos, negsuc}
use chronolog_db.Bytes.{Bytes}
use chronolog_db.Canonical.{TextCodec, Checked-cases, passed, utf8, decode_utf8}
use chronolog_db.Canonical.BigEndian.{from_big_endian}
use chronolog_db.Canonical.Cbor.{
  CborMapKey, key_integer, key_text, key_bytes, cbor_integer, cbor_text, cbor_bytes, max_uint64,
  octets, encode_head, encode_blob, encode_bignum, encode_bigint, encode_text, encode_key,
  magnitude_bytes,
}
use chronolog_db.Canonical.Cbor.Decode.{
  DecodeLimits, read_value, read_kind, read_sized, read_bignum, check_magnitude, max_safe, of_tag,
}
use chronolog_db.Canonical.Cbor.Heads.{IsHead, head_bytes-IsHead, read_bytes-append}
use chronolog_db.Canonical.Cbor.Bignums.{
  from_big_endian-octets, length-octets, octets-starts_above_zero,
}
use chronolog_db.Canonical.Cbor.Shape.{
  value_of_key, is_size_below, magnitude_fits, integer_fits, key_fits,
}

-- A head that is written is one.
pub encode_head-IsHead :
    (major value : ℕ) (head : Bytes)
    → encode_head major value ≡ passed head
    → IsHead major value head
unfolding encode_head
encode_head-IsHead major value head h =
    subst (IsHead major value) (ground arith) (head_bytes-IsHead major value (ground arith))

-- A blob that is written is its bytes behind a head.
encode_blob-parts :
    (major : ℕ) (bytes enc : Bytes)
    → encode_blob major bytes ≡ passed enc
    → (head : Bytes) × IsHead major (length bytes) head × (enc ≡ head ++ bytes)
unfolding encode_blob
encode_blob-parts major bytes enc h = elim (Checked-cases (encode_head major (length bytes))) [
  | inr (e, bad) ↦ absurd (ground (arith, bad, h))
  | inl (head, good) ↦
      (head, encode_head-IsHead major (length bytes) head good, ground (arith, good, h))
]

bignum_parts :
    (tag n : ℕ) (enc : Bytes)
    → encode_bignum tag n ≡ passed enc
    → (tagged : Bytes) × (head : Bytes) × IsHead 6 tag tagged
      × IsHead 2 (length (octets n n [])) head
      × (enc ≡ tagged ++ (head ++ octets n n []))
unfolding encode_bignum magnitude_bytes
bignum_parts tag n enc h = elim (Checked-cases (encode_head 6 tag)) [
  | inr (e, bad) ↦ absurd (ground (arith, bad, h))
  | inl (tagged, good) ↦ elim (Checked-cases (encode_blob 2 (octets n n []))) [
    | inr (e, bad) ↦ absurd (ground (arith, good, bad, h))
    | inl (blob, blobbed) ↦
        let (head, is_head, whole) = encode_blob-parts 2 (octets n n []) blob blobbed in
        (
          tagged,
          head,
          encode_head-IsHead 6 tag tagged good,
          is_head,
          ground (arith, good, blobbed, h) ∙ ap (◌++◌ tagged) whole,
        )
  ]
]

check_magnitude-octets :
    (tag n : ℕ)
    → leb n max_uint64 ≡ false
    → check_magnitude tag (octets n n []) ≡ passed (of_tag tag n)
unfolding check_magnitude from_big_endian
check_magnitude-octets tag n big =
    let back : from_big_endian 0 (octets n n []) ≡ n =
      from_big_endian-octets n n [] (omega arith) in
    let long = length-octets 8 n n [] (omega arith) (ground arith) in
    let starts = octets-starts_above_zero n n [] (omega arith) (ground arith) in
    ground (arith, back, long, starts)

module _ (codec : TextCodec) (limits : DecodeLimits) where
  -- Behind a head, the kind of value is read.
  pub read_value-head :
      (room major value : ℕ) (head more : Bytes)
      → IsHead major value head
      → nat_eq major 7 ≡ false
      → read_value codec limits (suc room) (head ++ more)
        ≡ read_kind codec limits (read_value codec limits room) room major value more
  unfolding read_value IsHead
  read_value-head room major value head more (b, bs, whole, is_major, reads) other =
      rw (whole, is_major, other, reads more) refl

  -- A blob is read as its kind of value.
  read_blob :
      (room major : ℕ) (bytes enc rest : Bytes)
      → encode_blob major bytes ≡ passed enc
      → nat_eq major 7 ≡ false
      → read_value codec limits (suc room) (enc ++ rest)
        ≡ read_kind codec limits
            (read_value codec limits room)
            room
            major
            (length bytes)
            (bytes ++ rest)
  read_blob room major bytes enc rest h other =
      let (head, is_head, whole) = encode_blob-parts major bytes enc h in
      ap (λ z. read_value codec limits (suc room) (z ++ rest)) whole
      ∙ ap (read_value codec limits (suc room)) (append_assoc head bytes rest)
      ∙ read_value-head room major (length bytes) head (bytes ++ rest) is_head other

  pub read_value-blob :
      (room : ℕ) (bytes enc rest : Bytes)
      → encode_blob 2 bytes ≡ passed enc
      → is_size_below (length bytes) limits.max_blob_bytes ≡ true
      → read_value codec limits (suc room) (enc ++ rest) ≡ passed (cbor_bytes bytes, rest)
  unfolding read_kind read_sized
  read_value-blob room bytes enc rest h fits =
      read_blob room 2 bytes enc rest h refl ∙ ground (arith, read_bytes-append bytes rest, fits)

  pub read_value-text :
      (room : ℕ) (text : String) (enc rest : Bytes)
      → encode_text codec text ≡ passed enc
      → is_size_below (length (codec.encode text)) limits.max_text_bytes ≡ true
      → read_value codec limits (suc room) (enc ++ rest) ≡ passed (cbor_text text, rest)
  unfolding read_kind read_sized encode_text utf8 decode_utf8
  read_value-text room text enc rest h fits =
      let bytes = codec.encode text in
      let back : codec.decode bytes ≡ some text =
        ground (arith, option_beq_iff (codec.decode bytes) (some text), h) in
      let blob : encode_blob 3 bytes ≡ passed enc =
        ground (arith, option_beq_iff (codec.decode bytes) (some text), h) in
      read_blob room 3 bytes enc rest blob refl
      ∙ ground (arith, read_bytes-append bytes rest, fits, back)

  read_bignum-octets :
      (room tag n : ℕ) (head rest : Bytes)
      → IsHead 2 (length (octets n n [])) head
      → (tag ≡ 2) ⊎ (tag ≡ 3)
      → leb n max_uint64 ≡ false
      → magnitude_fits limits room n ≡ true
      → read_bignum limits room tag (head ++ (octets n n [] ++ rest)) ≡ passed (of_tag tag n, rest)
  unfolding read_bignum IsHead
  read_bignum-octets room tag n head rest (b, bs, whole, is_major, reads) is_tag big fits =
      let known : (nat_eq tag 2 || nat_eq tag 3) ≡ true = ground arith in
      let deep : ltb 1 room ≡ true = ground arith in
      let safe : leb (length (octets n n [])) max_safe ≡ true = ground arith in
      let small : leb (length (octets n n [])) limits.max_blob_bytes ≡ true = ground arith in
      rw
        (
          whole,
          known,
          deep,
          is_major,
          reads (octets n n [] ++ rest),
          safe,
          small,
          read_bytes-append (octets n n []) rest,
          check_magnitude-octets tag n big,
        )
        refl

  -- A magnitude that needs a tag is read back.
  read_value-bignum :
      (room tag n : ℕ) (enc rest : Bytes)
      → encode_bignum tag n ≡ passed enc
      → (tag ≡ 2) ⊎ (tag ≡ 3)
      → leb n max_uint64 ≡ false
      → magnitude_fits limits room n ≡ true
      → read_value codec limits (suc room) (enc ++ rest)
        ≡ passed (cbor_integer (of_tag tag n), rest)
  unfolding read_kind
  read_value-bignum room tag n enc rest h is_tag big fits =
      let (tagged, head, is_tagged, is_head, whole) = bignum_parts tag n enc h in
      ap (λ z. read_value codec limits (suc room) (z ++ rest)) whole
      ∙ ap (read_value codec limits (suc room)) (
          append_assoc tagged (head ++ octets n n []) rest
          ∙ ap (◌++◌ tagged) (append_assoc head (octets n n []) rest))
      ∙ read_value-head room 6 tag tagged (head ++ (octets n n [] ++ rest)) is_tagged refl
      ∙ rw (read_bignum-octets room tag n head rest is_head is_tag big fits) refl

  pub read_value-integer :
      (room : ℕ) (n : ℤ) (enc rest : Bytes)
      → encode_bigint n ≡ passed enc
      → integer_fits limits room n ≡ true
      → read_value codec limits (suc room) (enc ++ rest) ≡ passed (cbor_integer n, rest)
  unfolding encode_bigint read_kind
  read_value-integer room (pos n) enc rest h fits = elim (Bool-cases (leb n max_uint64)) [
    | inl small ↦
        read_value-head room 0 n enc rest (encode_head-IsHead 0 n enc (ground (arith, small, h)))
          refl
    | inr big ↦ read_value-bignum room 2 n enc rest (ground (arith, big, h)) (inl refl) big fits
  ]
  read_value-integer room (negsuc n) enc rest h fits = elim (Bool-cases (leb n max_uint64)) [
    | inl small ↦
        read_value-head room 1 n enc rest (encode_head-IsHead 1 n enc (ground (arith, small, h)))
          refl
    | inr big ↦ read_value-bignum room 3 n enc rest (ground (arith, big, h)) (inr refl) big fits
  ]

  -- A key is read back as the value that it is encoded as.
  pub read_value-key :
      (room : ℕ) (k : CborMapKey) (enc rest : Bytes)
      → encode_key codec k ≡ passed enc
      → key_fits codec limits room k ≡ true
      → read_value codec limits room (enc ++ rest) ≡ passed (value_of_key k, rest)
  unfolding encode_key key_fits
  read_value-key zero k enc rest h fits = cc
  read_value-key (suc room) (key_integer n) enc rest h fits =
      read_value-integer room n enc rest h fits
  read_value-key (suc room) (key_text text) enc rest h fits =
      read_value-text room text enc rest h fits
  read_value-key (suc room) (key_bytes bytes) enc rest h fits =
      read_value-blob room bytes enc rest h fits
