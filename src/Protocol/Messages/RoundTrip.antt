-- ===== src/Protocol/Messages/RoundTrip.antt =====
-- For packages/protocol/src/messages.ts: messages that are encoded are decoded to what they were.
use chronolog_db.Prelude.{any, subst, sym, ◌≤◌, ◌≡◌, refl, arith, length, ltb}
use chronolog_db.Bytes.{Bytes, compare_bytes}
use chronolog_db.Canonical.{TextCodec}
use chronolog_db.Canonical.Cbor.{max_uint64, encode_key}
use chronolog_db.Canonical.Cbor.Shape.{is_canonical, value_fits}
use chronolog_db.Protocol.{
  returned, ValidatorAttestation, schema_invalid, invariant-returned, bind-returned,
  returned-injective,
}
use chronolog_db.Protocol.Schema.{encode}
use chronolog_db.Protocol.Schema.RoundTrip.{
  IsReadable, leb_lem, is_size_below_blob, magnitude_fits_uint64, assert_canonical-encode,
}
use chronolog_db.Protocol.Messages.Codec.{
  attestation_to_cbor, attestation_fields, encode_validator_attestation,
  decode_validator_attestation,
}

-- The numbers have 64 bits, no byte string is longer than the decoder's limit, and the digest has its length.
pub record IsSendable (a : ValidatorAttestation) : Type 0 where
  pub timestamp : a.author_timestamp_ms ≤ max_uint64
  pub cutoff : a.accepted_above_ms ≤ max_uint64
  pub version : a.policy_version ≤ max_uint64
  pub group : length a.group_id ≤ 16777216
  pub membership : length a.membership_revision ≤ 16777216
  pub capability : length a.validator_capability ≤ 16777216
  pub transaction : length a.tx_id ≤ 16777216
  pub validator : length a.validator_id ≤ 16777216
  pub digest : length a.candidate_digest ≡ 32

attestation_fields-IsReadable :
    (codec : TextCodec) (a : ValidatorAttestation)
    → IsSendable a
    → IsReadable codec (attestation_fields a)
unfolding attestation_fields is_canonical value_fits encode_key compare_bytes
attestation_fields-IsReadable codec a s = (
  refl,
  rw
      (
        is_size_below_blob a.group_id s.group,
        is_size_below_blob a.membership_revision s.membership,
        is_size_below_blob a.validator_capability s.capability,
        is_size_below_blob a.tx_id s.transaction,
        is_size_below_blob a.validator_id s.validator,
        is_size_below_blob a.candidate_digest (omega (arith, s.digest)),
        magnitude_fits_uint64 63 a.author_timestamp_ms s.timestamp,
        magnitude_fits_uint64 63 a.accepted_above_ms s.cutoff,
        magnitude_fits_uint64 63 a.policy_version s.version,
      )
      refl,
)

-- If an attestation of numbers of 64 bits, byte strings within the decoder's limit and a digest of 32 bytes is
-- encoded, in no more bytes than the limit, then it is decoded to what it was.
pub decode_validator_attestation-encode_validator_attestation :
    (codec : TextCodec) (a : ValidatorAttestation) (bytes : Bytes)
    → encode_validator_attestation codec a ≡ returned bytes
    → IsSendable a
    → length bytes ≤ 16777216
    → decode_validator_attestation codec bytes ≡ returned a
unfolding any encode_validator_attestation attestation_to_cbor decode_validator_attestation
decode_validator_attestation-encode_validator_attestation codec a bytes h s short =
    let (value, is_value, encoded) = bind-returned (attestation_to_cbor a) (encode codec) h in
    let (later, is_fields) =
      invariant-returned (ltb a.accepted_above_ms a.author_timestamp_ms) schema_invalid _
        is_value in
    let encoded' =
      subst (λ v. encode codec v ≡ returned bytes) (sym (returned-injective is_fields)) encoded in
    let accepted =
      assert_canonical-encode codec (attestation_fields a) bytes encoded'
        (attestation_fields-IsReadable codec a s) (ground (arith, short)) in
    rw (accepted, leb_lem s.timestamp, leb_lem s.cutoff, later, s.digest, leb_lem s.version) refl
