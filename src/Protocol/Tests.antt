-- ===== src/Protocol/Tests.antt =====
-- Runs of the protocol package's model, and of the shared hashes below it, at concrete inputs.
mod Codecs
use chronolog_db.Prelude.{
  ◌↔◌, Sorted, ℕ, zero, suc, ◌≡◌, refl, false, none, some, List, [], ◌∷◌, length, arith, map,
  if◌then◌else◌, ◌==◌, ◌⊎◌, String_eq, option_beq, sort, insert_sorted,
}
use chronolog_db.Bytes.{Bytes, compare_bytes, bytes_equal}
use chronolog_db.Canonical.{TextCodec}
use chronolog_db.Canonical.Cbor.{CborValue, cbor_array, cbor_bytes, encode_key}
use chronolog_db.Canonical.Cbor.Shape.{is_canonical, value_fits}
use chronolog_db.Canonical.Hash.{schema, domain_separated_bytes}
use chronolog_db.Canonical.Hash.Separation.{domain_separated_bytes-same}
use chronolog_db.Protocol.{returned, TransactionCore, ValidatorAttestation}
use chronolog_db.Protocol.Schema.{expect_uint64, integer_map, from_list, unsigned}
use chronolog_db.Protocol.Primitives.{Crypto}
use chronolog_db.OrderKey.{TransactionOrderKey}
use chronolog_db.Protocol.Messages.OrderKeys.{Differ, assert_unique_order_keys_iff}
use chronolog_db.Protocol.Messages.{
  assert_unique_order_keys, PayloadManifest, candidate, manifest_payload, ChronologEnvelope,
  concat_bytes, create_payload_manifest, verify_payload_manifest,
}
use chronolog_db.Protocol.Messages.Codec.{
  encode_validator_attestation, decode_validator_attestation,
}
use chronolog_db.Protocol.Messages.RoundTrip.{
  decode_validator_attestation-encode_validator_attestation,
}
use chronolog_db.Protocol.Messages.Envelope.{
  encode_envelope, decode_envelope, payload_to_cbor, chunk_to_cbor, envelope_fields,
}
use chronolog_db.Protocol.Messages.Envelope.RoundTrip.{decode_envelope-encode_envelope}
use chronolog_db.Protocol.Messages.Manifest.{
  Collision, verify_payload_manifest-same, verify_payload_manifest-create_payload_manifest,
}

-- The texts that are used, each with a byte of its own.
abbrev pub texts : TextCodec
texts = record {
  encode = λ text.
      if text == "chronolog/envelope/v1"
      then 1 ∷ []
      else if text == "chronolog/payload-chunk/v1"
      then 2 ∷ []
      else if text == "chronolog/schema"
      then 3 ∷ []
      else 97 ∷ [];
  decode = λ bytes.
      if bytes_equal bytes (1 ∷ [])
      then some "chronolog/envelope/v1"
      else if bytes_equal bytes (2 ∷ [])
      then some "chronolog/payload-chunk/v1"
      else if bytes_equal bytes (3 ∷ [])
      then some "chronolog/schema"
      else some "a";
}

abbrev pub zeros : ℕ → Bytes → Bytes
zeros zero bytes = bytes
zeros (suc n) bytes = 0 ∷ zeros n bytes

-- 32 bytes for a number, in front of more.
abbrev pub key : ℕ → Bytes → Bytes
key n more = zeros 31 (n ∷ more)

-- A digest that is the length of what is hashed.
abbrev pub toy : Crypto
toy = record {
  sha256 = λ bytes. key (length bytes) [];
  verifies = λ public_key signature message. false;
}

abbrev sample_attestation : ValidatorAttestation
sample_attestation = record {
  group_id = 1 ∷ [];
  membership_revision = 2 ∷ [];
  validator_capability = 3 ∷ [];
  tx_id = 4 ∷ [];
  validator_id = 5 ∷ [];
  author_timestamp_ms = 100;
  accepted_above_ms = 50;
  candidate_digest = key 6 [];
  policy_version = 1;
}

abbrev attestation_bytes : Bytes
attestation_bytes =
    0xab
    ∷ 0
    ∷ 1
    ∷ 1
    ∷ 0x41
    ∷ 1
    ∷ 2
    ∷ 0x41
    ∷ 2
    ∷ 3
    ∷ 0x41
    ∷ 3
    ∷ 4
    ∷ 0x41
    ∷ 4
    ∷ 5
    ∷ 0x41
    ∷ 5
    ∷ 6
    ∷ 0x18
    ∷ 100
    ∷ 7
    ∷ 0x18
    ∷ 50
    ∷ 8
    ∷ 0x58
    ∷ 32
    ∷ key 6 (9 ∷ 1 ∷ 10 ∷ 1 ∷ [])

decode_validator_attestation-encode_validator_attestation_example :
    decode_validator_attestation texts attestation_bytes ≡ returned sample_attestation
unfolding encode_validator_attestation sort insert_sorted compare_bytes bytes_equal
decode_validator_attestation-encode_validator_attestation_example =
    decode_validator_attestation-encode_validator_attestation texts sample_attestation
      attestation_bytes refl
      (record {
        timestamp = omega arith;
        cutoff = omega arith;
        version = omega arith;
        group = omega arith;
        membership = omega arith;
        capability = omega arith;
        transaction = omega arith;
        validator = omega arith;
        digest = refl;
      })
      (omega arith)

abbrev sample_chunks : List Bytes
sample_chunks = (1 ∷ 2 ∷ []) ∷ (3 ∷ []) ∷ []

abbrev pub sample_manifest : PayloadManifest
sample_manifest = record {
  total_digest = key 5 [];
  total_size = 3;
  chunks = record { digest = key 4 []; size = 2 } ∷ record { digest = key 3 []; size = 1 } ∷ [];
}

verify_payload_manifest-create_payload_manifest_example :
    verify_payload_manifest texts toy sample_manifest sample_chunks
    ≡ returned (concat_bytes sample_chunks)
unfolding create_payload_manifest option_beq bytes_equal
verify_payload_manifest-create_payload_manifest_example =
    verify_payload_manifest-create_payload_manifest texts toy sample_chunks sample_manifest refl

verify_payload_manifest-same_example :
    (1 ∷ 2 ∷ 3 ∷ [] ≡ concat_bytes sample_chunks)
    × (1 ∷ 2 ∷ 3 ∷ [] ≡ concat_bytes sample_chunks)
    × ((sample_chunks ≡ sample_chunks) ⊎ Collision toy)
unfolding verify_payload_manifest option_beq bytes_equal
verify_payload_manifest-same_example =
    verify_payload_manifest-same texts toy sample_manifest sample_chunks sample_chunks
      (1 ∷ 2 ∷ 3 ∷ []) (1 ∷ 2 ∷ 3 ∷ []) refl refl

abbrev five : Bytes
five = 5 ∷ []

domain_separated_bytes-same_example : (schema ≡ schema) × (five ≡ five)
unfolding domain_separated_bytes option_beq bytes_equal
domain_separated_bytes-same_example =
    domain_separated_bytes-same texts schema schema five five (0 ∷ 0 ∷ 0 ∷ 1 ∷ 3 ∷ 0 ∷ 5 ∷ []) refl
      refl (omega arith) (omega arith)

abbrev order_key : ℕ → TransactionOrderKey
order_key sequence = record {
  author_timestamp_ms = 5;
  author_id = 1 ∷ [];
  author_feed_sequence = sequence;
  tx_id = 2 ∷ [];
}

assert_unique_order_keys_iff_example :
    (assert_unique_order_keys (order_key 2 ∷ order_key 1 ∷ []) ≡ returned tt)
    ↔ Sorted Differ (order_key 2 ∷ order_key 1 ∷ [])
assert_unique_order_keys_iff_example = assert_unique_order_keys_iff (order_key 2 ∷ order_key 1 ∷ [])
