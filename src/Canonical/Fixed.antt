-- ===== src/Canonical/Fixed.antt =====
-- packages/canonical/src/fixed.ts: integers of a fixed width in big-endian bytes. A number of 32 bits is
-- one of ℤ, as the code refuses what is no safe integer.
use chronolog_db.Prelude.{
  ℕ, ◌-◌, ◌^◌, ◌≤◌, ◌<◌, ◌≡◌, ◌∙◌, arith, length, leb, nat_eq, if◌then◌else◌, subst,
}
use chronolog_db.Prelude.Int.{ℤ, pos, negsuc}
use chronolog_db.Bytes.{Bytes}
use chronolog_db.Canonical.{
  Checked, passed, refused, ◌>>◌, canonical_invariant, schema_invalid, integer_out_of_range,
}
use chronolog_db.Canonical.BigEndian.{
  big_endian, from_big_endian, from_big_endian-big_endian, length-big_endian,
}

-- The bytes of an unsigned number of at most `bound`.
abbrev unsigned_bytes : ℕ → ℕ → ℤ → Checked Bytes
unsigned_bytes size bound (pos n) =
    canonical_invariant (leb n bound) integer_out_of_range >> passed (big_endian size n)
unsigned_bytes size bound (negsuc n) = refused integer_out_of_range

unfoldable pub uint32_bytes : ℤ → Checked Bytes
uint32_bytes value = unsigned_bytes 4 0xffffffff value

unfoldable pub uint64_bytes : ℤ → Checked Bytes
uint64_bytes value = unsigned_bytes 8 0xffffffffffffffff value

-- The lowest 64 bits of a negative number of at least -2^63 stand for 2^64 more.
unfoldable pub int64_bytes : ℤ → Checked Bytes
int64_bytes (pos n) =
    canonical_invariant (leb n 0x7fffffffffffffff) integer_out_of_range >> passed (big_endian 8 n)
int64_bytes (negsuc n) =
    canonical_invariant (leb n 0x7fffffffffffffff) integer_out_of_range
    >> passed (big_endian 8 (0xffffffffffffffff - n))

abbrev read_unsigned : ℕ → Bytes → Checked ℤ
read_unsigned size bytes =
    canonical_invariant (nat_eq (length bytes) size) schema_invalid
    >> passed (pos (from_big_endian 0 bytes))

unfoldable pub bytes_to_uint32 : Bytes → Checked ℤ
bytes_to_uint32 bytes = read_unsigned 4 bytes

unfoldable pub bytes_to_uint64 : Bytes → Checked ℤ
bytes_to_uint64 bytes = read_unsigned 8 bytes

abbrev of_bits : ℕ → ℤ
of_bits bits = if leb bits 0x7fffffffffffffff then pos bits else negsuc (0xffffffffffffffff - bits)

unfoldable pub bytes_to_int64 : Bytes → Checked ℤ
bytes_to_int64 bytes =
    canonical_invariant (nat_eq (length bytes) 8) schema_invalid
    >> passed (of_bits (from_big_endian 0 bytes))

read_unsigned-unsigned_bytes :
    (size bound : ℕ) (value : ℤ) (bytes : Bytes)
    → bound < 256 ^ size
    → unsigned_bytes size bound value ≡ passed bytes
    → read_unsigned size bytes ≡ passed value
read_unsigned-unsigned_bytes size bound (negsuc n) bytes small h = cc
read_unsigned-unsigned_bytes size bound (pos n) bytes small h =
    let written : big_endian size n ≡ bytes = ground arith in
    let fits : n < 256 ^ size = ground arith in
    subst (λ z. read_unsigned size z ≡ passed (pos n)) written
      (ground (arith, length-big_endian size n, from_big_endian-big_endian size n fits))

bytes_to_int64-bits :
    (bits : ℕ)
    → bits ≤ 0xffffffffffffffff
    → bytes_to_int64 (big_endian 8 bits) ≡ passed (of_bits bits)
unfolding bytes_to_int64
bytes_to_int64-bits bits fits =
    ground (arith, length-big_endian 8 bits, from_big_endian-big_endian 8 bits (omega arith))

bytes_to_int64-int64_bytes :
    (value : ℤ) (bytes : Bytes)
    → int64_bytes value ≡ passed bytes
    → bytes_to_int64 bytes ≡ passed value
unfolding int64_bytes
bytes_to_int64-int64_bytes (pos n) bytes h =
    let written : big_endian 8 n ≡ bytes = ground arith in
    let small : n ≤ 0x7fffffffffffffff = ground arith in
    subst (λ z. bytes_to_int64 z ≡ passed (pos n)) written
      (bytes_to_int64-bits n (omega arith) ∙ ground arith)
bytes_to_int64-int64_bytes (negsuc n) bytes h =
    let written : big_endian 8 (0xffffffffffffffff - n) ≡ bytes = ground arith in
    let small : n ≤ 0x7fffffffffffffff = ground arith in
    subst (λ z. bytes_to_int64 z ≡ passed (negsuc n)) written
      (bytes_to_int64-bits (0xffffffffffffffff - n) (omega arith) ∙ ground arith)

-- The kinds of integer, with their writer and their reader.
pub data FixedWidth : Type 0 where
  uint32 uint64 int64 : FixedWidth

abbrev pub write : FixedWidth → ℤ → Checked Bytes
write uint32 = uint32_bytes
write uint64 = uint64_bytes
write int64 = int64_bytes

abbrev pub read : FixedWidth → Bytes → Checked ℤ
read uint32 = bytes_to_uint32
read uint64 = bytes_to_uint64
read int64 = bytes_to_int64

-- For each of the three kinds, if an integer is written, its bytes are read back as this integer.
pub read-write :
    (width : FixedWidth) (value : ℤ) (bytes : Bytes)
    → write width value ≡ passed bytes
    → read width bytes ≡ passed value
unfolding uint32_bytes uint64_bytes bytes_to_uint32 bytes_to_uint64
read-write uint32 value bytes h =
    read_unsigned-unsigned_bytes 4 0xffffffff value bytes (omega arith) h
read-write uint64 value bytes h =
    read_unsigned-unsigned_bytes 8 0xffffffffffffffff value bytes (omega arith) h
read-write int64 value bytes h = bytes_to_int64-int64_bytes value bytes h
