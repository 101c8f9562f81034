-- ===== src/Protocol/Schema/RoundTrip.antt =====
-- For packages/protocol/src/cbor.ts: a value that the protocol encodes is accepted and given back.
use chronolog_db.Prelude.{nat_eq, ℕ, ◌≤◌, ◌≡◌, true, arith, length, leb, inl, inr, ◌∙◌, ap}
use chronolog_db.Bytes.{Bytes}
use chronolog_db.Canonical.{TextCodec, Checked-cases, passed}
use chronolog_db.Canonical.Cbor.{CborValue, encode_canonical_cbor, max_uint64}
use chronolog_db.Canonical.Cbor.Decode.{default_decode_limits}
use chronolog_db.Canonical.Cbor.Shape.{is_canonical, value_fits, is_size_below, magnitude_fits}
use chronolog_db.Canonical.Cbor.RoundTrip.{assert_canonical_cbor-is_canonical}
use chronolog_db.Protocol.{returned}
use chronolog_db.Protocol.Schema.{wrap, encode, assert_canonical}

-- A value that the decoder can give back within the default limits, one of which bounds its encoding.
abbrev pub IsReadable : TextCodec → CborValue → Type 0
IsReadable codec v =
    (is_canonical codec v ≡ true) × (value_fits codec default_decode_limits 65 v ≡ true)

pub assert_canonical-encode :
    (codec : TextCodec) (v : CborValue) (bytes : Bytes)
    → encode codec v ≡ returned bytes
    → IsReadable codec v
    → leb (length bytes) default_decode_limits.max_bytes ≡ true
    → assert_canonical codec bytes ≡ returned v
unfolding encode assert_canonical
assert_canonical-encode codec v bytes h readable short =
    elim (Checked-cases (encode_canonical_cbor codec v)) [
      | inr (e, bad) ↦ absurd (ground (arith, bad, h))
      | inl (bytes', good) ↦
          let same : bytes' ≡ bytes = ground (arith, good, h) in
          ap wrap (
            assert_canonical_cbor-is_canonical codec default_decode_limits v bytes
              (good ∙ ap passed same) readable.0 readable.1 short)
    ]

-- A byte string and a number that are read back.
pub is_size_below_blob :
    (bytes : Bytes) → length bytes ≤ 16777216 → is_size_below (length bytes) 16777216 ≡ true
is_size_below_blob bytes h = ground (arith, h)

pub magnitude_fits_uint64 :
    (room n : ℕ) → n ≤ max_uint64 → magnitude_fits default_decode_limits room n ≡ true
magnitude_fits_uint64 room n h = ground (arith, h)

pub leb_lem : {m n : ℕ} → m ≤ n → leb m n ≡ true
leb_lem h = ground (arith, h)

pub nat_eq_lem : {m n : ℕ} → m ≡ n → nat_eq m n ≡ true
nat_eq_lem h = ground (arith, h)
