-- ===== src/Canonical/Cbor/Heads.antt =====
-- For packages/canonical/src/cbor.ts: what encodeHead writes is read back.
use chronolog_db.Prelude.{
  ℕ, ◌+◌, ◌*◌, ◌/◌, ◌%◌, ◌≤◌, ◌<◌, ◌≡◌, refl, ap, ◌∙◌, [], ◌∷◌, ◌++◌, ◌^◌, arith, length,
  length-append, take, drop, ltb, leb, Bool-cases, inl, inr, subst,
}
use chronolog_db.Bytes.{Bytes}
use chronolog_db.Canonical.{passed}
use chronolog_db.Canonical.BigEndian.{
  big_endian, from_big_endian, from_big_endian-big_endian, length-big_endian,
}
use chronolog_db.Canonical.Cbor.{initial_byte, head_bytes, max_uint64}
use chronolog_db.Canonical.Cbor.Decode.{read_bytes, read_number, read_argument}

pub take-length_append : (xs ys : Bytes) → take (length xs) (xs ++ ys) ≡ xs
take-length_append [] ys = refl
take-length_append (x ∷ xs) ys = ap (◌∷◌ x) (take-length_append xs ys)

drop-length_append : (xs ys : Bytes) → drop (length xs) (xs ++ ys) ≡ ys
drop-length_append [] ys = refl
drop-length_append (x ∷ xs) ys = drop-length_append xs ys

pub read_bytes-append :
    (bytes rest : Bytes) → read_bytes (length bytes) (bytes ++ rest) ≡ passed (bytes, rest)
unfolding read_bytes
read_bytes-append bytes rest =
    ground (
      arith,
      length-append bytes rest,
      take-length_append bytes rest,
      drop-length_append bytes rest,
    )

read_number-append :
    (bytes rest : Bytes) (least value : ℕ)
    → from_big_endian 0 bytes ≡ value
    → least ≤ value
    → read_number (length bytes) least (bytes ++ rest) ≡ passed (value, rest)
unfolding read_number
read_number-append bytes rest least value h enough =
    rw (read_bytes-append bytes rest, read_number) (ground arith)

read_number-big_endian :
    (size least value : ℕ) (rest : Bytes)
    → value < 256 ^ size
    → least ≤ value
    → read_number size least (big_endian size value ++ rest) ≡ passed (value, rest)
read_number-big_endian size least value rest h enough =
    subst (λ n. read_number n least (big_endian size value ++ rest) ≡ passed (value, rest))
      (length-big_endian size value)
      (read_number-append (big_endian size value) rest least value
        (from_big_endian-big_endian size value h) enough)

-- The initial byte and what follows it: the major type, and the value.
unfoldable pub IsHead : ℕ → ℕ → Bytes → Type 0
IsHead major value bytes =
    (b : ℕ) × (bs : Bytes) × (bytes ≡ b ∷ bs)
    × (b / 32 ≡ major)
    × ((rest : Bytes) → read_argument (b % 32) (bs ++ rest) ≡ passed (value, rest))

initial_byte_parts :
    (major additional : ℕ)
    → additional < 32
    → ((major * 32 + additional) / 32 ≡ major) × ((major * 32 + additional) % 32 ≡ additional)
initial_byte_parts major additional h = (omega arith, omega arith)

-- A head whose argument stands in the bytes `bs`.
long-IsHead :
    (major additional value : ℕ) (bs : Bytes)
    → additional < 32
    → ((rest : Bytes) → read_argument additional (bs ++ rest) ≡ passed (value, rest))
    → IsHead major value (initial_byte major additional ∷ bs)
unfolding IsHead
long-IsHead major additional value bs h reads =
    let (is_major, is_additional) = initial_byte_parts major additional h in
    (
      initial_byte major additional,
      bs,
      refl,
      is_major,
      λ rest. ap (λ a. read_argument a (bs ++ rest)) is_additional ∙ reads rest,
    )

read_argument_direct :
    (value : ℕ) (rest : Bytes) → value < 24 → read_argument value rest ≡ passed (value, rest)
unfolding read_argument
read_argument_direct value rest h = ground arith

pub head_bytes-IsHead :
    (major value : ℕ) → value ≤ max_uint64 → IsHead major value (head_bytes major value)
unfolding head_bytes read_argument from_big_endian
head_bytes-IsHead major value fits = elim (Bool-cases (ltb value 24)) [
  | inl direct ↦
      rw (direct, head_bytes)
        (long-IsHead major value value [] (ground (arith, direct))
          (λ rest. read_argument_direct value rest (ground (arith, direct))))
  | inr a ↦ elim (Bool-cases (leb value 0xff)) [
    | inl one ↦
        rw (a, one, head_bytes)
          (long-IsHead major 24 value (value ∷ []) (omega arith) (λ rest.
            read_number-append (value ∷ []) rest 24 value (omega arith) (ground (arith, a))))
    | inr b ↦ elim (Bool-cases (leb value 0xffff)) [
      | inl two ↦
          rw (a, b, two, head_bytes)
            (long-IsHead major 25 value (value / 256 ∷ value % 256 ∷ []) (omega arith) (λ rest.
              read_number-append (value / 256 ∷ value % 256 ∷ []) rest 0x100 value (omega arith)
                (ground (arith, b))))
      | inr c ↦ elim (Bool-cases (leb value 0xffffffff)) [
        | inl four ↦
            rw (a, b, c, four, head_bytes)
              (long-IsHead major 26 value (big_endian 4 value) (omega arith) (λ rest.
                read_number-big_endian 4 0x10000 value rest (ground (arith, four))
                  (ground (arith, c))))
        | inr d ↦
            rw (a, b, c, d, head_bytes)
              (long-IsHead major 27 value (big_endian 8 value) (omega arith) (λ rest.
                read_number-big_endian 8 0x100000000 value rest (ground (arith, fits))
                  (ground (arith, d))))
      ]
    ]
  ]
]
