-- ===== src/Protocol/Tests/Codecs.antt =====
-- Runs of the codecs of envelopes at concrete inputs.
use chronolog_db.Prelude.{
  ◌≡◌, refl, none, some, [], ◌∷◌, arith, map, String_eq, sort, insert_sorted,
}
use chronolog_db.Bytes.{Bytes, compare_bytes, bytes_equal}
use chronolog_db.Canonical.Cbor.{CborValue, cbor_array, cbor_bytes, encode_key}
use chronolog_db.Canonical.Cbor.Shape.{value_fits}
use chronolog_db.Protocol.{returned}
use chronolog_db.Protocol.Schema.{integer_map, from_list, unsigned}
use chronolog_db.Protocol.Messages.{candidate, manifest_payload, ChronologEnvelope}
use chronolog_db.Protocol.Messages.Envelope.{
  encode_envelope, decode_envelope, payload_to_cbor, chunk_to_cbor, envelope_fields,
}
use chronolog_db.Protocol.Messages.Envelope.RoundTrip.{decode_envelope-encode_envelope}
use chronolog_db.Protocol.Tests.{texts, key, sample_manifest}

abbrev sample_envelope : ChronologEnvelope
sample_envelope = record {
  group_route = 9 ∷ [];
  message_type = candidate;
  encryption_epoch = none;
  payload_digest = key 5 [];
  payload = manifest_payload sample_manifest;
}

abbrev envelope_bytes : Bytes
envelope_bytes =
    0xa6
    ∷ 0
    ∷ 1
    ∷ 1
    ∷ 0x41
    ∷ 9
    ∷ 2
    ∷ 0
    ∷ 3
    ∷ 0xf6
    ∷ 4
    ∷ 0x58
    ∷ 32
    ∷ key 5 (
        5
        ∷ 0x82
        ∷ 1
        ∷ 0xa3
        ∷ 0
        ∷ 0x58
        ∷ 32
        ∷ key 5 (
            1
            ∷ 3
            ∷ 2
            ∷ 0x82
            ∷ 0xa2
            ∷ 0
            ∷ 0x58
            ∷ 32
            ∷ key 4 (1 ∷ 2 ∷ 0xa2 ∷ 0 ∷ 0x58 ∷ 32 ∷ key 3 (1 ∷ 1 ∷ []))))

abbrev envelope_payload : CborValue
envelope_payload = cbor_array (
    from_list (
      unsigned 1
      ∷ integer_map (
          (0, some (cbor_bytes (key 5 [])))
          ∷ (1, some (unsigned 3))
          ∷ (2, some (cbor_array (from_list (map chunk_to_cbor sample_manifest.chunks))))
          ∷ [])
      ∷ []))

decode_envelope-encode_envelope_example :
    decode_envelope texts envelope_bytes ≡ returned sample_envelope
unfolding encode_envelope payload_to_cbor envelope_fields value_fits encode_key sort insert_sorted
    compare_bytes bytes_equal
decode_envelope-encode_envelope_example =
    decode_envelope-encode_envelope texts sample_envelope envelope_payload envelope_bytes refl refl
      (record {
        digest = refl;
        chunks_IsChunk = ((refl, omega arith), ((refl, omega arith), tt));
        total = refl;
        fits = omega arith;
      })
      refl refl (omega arith)
