-- ===== src/Protocol/Messages/Envelope/RoundTrip.antt =====
-- For packages/protocol/src/messages.ts: envelopes that are encoded are decoded to what they were.
use chronolog_db.Prelude.{
  none, some, Option, subst, any, ◌≤◌, ◌≡◌, refl, ap, true, List, [], ◌∷◌, length, leb, ltb, map,
  All,
}
use chronolog_db.Bytes.{Bytes, compare_bytes}
use chronolog_db.Canonical.{TextCodec}
use chronolog_db.Canonical.Cbor.{max_uint64, CborValue, cbor_array, encode_key}
use chronolog_db.Canonical.Cbor.Decode.{default_decode_limits}
use chronolog_db.Canonical.Cbor.Shape.{is_canonical, are_canonical, value_fits}
use chronolog_db.Protocol.{
  returned, ◌>>=◌, schema_invalid, invariant-returned, bind-returned, returned-injective,
}
use chronolog_db.Protocol.Schema.{encode, traverse, from_list, to_list, expect_array, unsigned}
use chronolog_db.Protocol.Schema.RoundTrip.{leb_lem, nat_eq_lem, assert_canonical-encode}
use chronolog_db.Protocol.Messages.{
  PayloadChunk, PayloadManifest, EnvelopeMessageType, candidate, attestation, heartbeat, capability,
  recovery, epoch_manifest, proof_bundle, snapshot_message, EnvelopePayload, inline_payload,
  manifest_payload, ChronologEnvelope,
}
use chronolog_db.Protocol.Messages.Envelope.{
  message_index, message_at, chunk_to_cbor, chunk_from_cbor, total_of, manifest_to_cbor,
  manifest_from_cbor, payload_to_cbor, payload_from_cbor, read_payload, epoch_to_cbor,
  epoch_from_cbor, envelope_fields, encode_envelope, decode_envelope,
}

message_at-message_index : (t : EnvelopeMessageType) → message_at (message_index t) ≡ returned t
message_at-message_index candidate = refl
message_at-message_index attestation = refl
message_at-message_index heartbeat = refl
message_at-message_index capability = refl
message_at-message_index recovery = refl
message_at-message_index epoch_manifest = refl
message_at-message_index proof_bundle = refl
message_at-message_index snapshot_message = refl

message_index_fits : (t : EnvelopeMessageType) → leb (message_index t) max_uint64 ≡ true
message_index_fits candidate = refl
message_index_fits attestation = refl
message_index_fits heartbeat = refl
message_index_fits capability = refl
message_index_fits recovery = refl
message_index_fits epoch_manifest = refl
message_index_fits proof_bundle = refl
message_index_fits snapshot_message = refl

to_list-from_list : (vs : List CborValue) → to_list (from_list vs) ≡ vs
to_list-from_list [] = refl
to_list-from_list (v ∷ vs) = ap (◌∷◌ v) (to_list-from_list vs)

-- The digest of a chunk has 32 bytes and its size 64 bits.
abbrev IsChunk : PayloadChunk → Type 0
IsChunk chunk = (length chunk.digest ≡ 32) × (chunk.size ≤ max_uint64)

-- A manifest whose digests have 32 bytes and whose total is that of its chunks.
pub record IsManifest (m : PayloadManifest) : Type 0 where
  pub digest : length m.total_digest ≡ 32
  pub chunks_IsChunk : All IsChunk m.chunks
  pub total : total_of m.chunks ≡ m.total_size
  pub fits : m.total_size ≤ max_uint64

abbrev IsPayload : EnvelopePayload → Type 0
IsPayload (inline_payload bytes) = Unit
IsPayload (manifest_payload m) = IsManifest m

traverse-chunk_from_cbor :
    (chunks : List PayloadChunk)
    → All IsChunk chunks
    → traverse chunk_from_cbor (map chunk_to_cbor chunks) ≡ returned chunks
unfolding chunk_from_cbor chunk_to_cbor any
traverse-chunk_from_cbor [] h = refl
traverse-chunk_from_cbor (chunk ∷ chunks) h =
    rw (h.0.0, leb_lem h.0.1, traverse-chunk_from_cbor chunks h.1) refl

manifest_from_cbor-manifest_to_cbor :
    (m : PayloadManifest) (value : CborValue)
    → manifest_to_cbor m ≡ returned value
    → IsManifest m
    → manifest_from_cbor value ≡ returned m
unfolding manifest_to_cbor manifest_from_cbor any
manifest_from_cbor-manifest_to_cbor m value h s =
    let (filled, is_fields) = invariant-returned (ltb 0 (length m.chunks)) schema_invalid _ h in
    subst (λ v. manifest_from_cbor v ≡ returned m) (returned-injective is_fields)
      (rw
        (
          to_list-from_list (map chunk_to_cbor m.chunks),
          traverse-chunk_from_cbor m.chunks s.chunks_IsChunk,
          filled,
          leb_lem s.fits,
          nat_eq_lem s.total,
          nat_eq_lem s.digest,
        )
        refl)

read_payload-payload_to_cbor :
    (p : EnvelopePayload) (value : CborValue)
    → payload_to_cbor p ≡ returned value
    → IsPayload p
    → (expect_array value >>= read_payload) ≡ returned p
unfolding payload_to_cbor payload_from_cbor
read_payload-payload_to_cbor (inline_payload bytes) value h s =
    subst (λ v. (expect_array v >>= read_payload) ≡ returned (inline_payload bytes))
      (returned-injective h) refl
read_payload-payload_to_cbor (manifest_payload m) value h s =
    let (inner, is_inner, h1) = bind-returned (manifest_to_cbor m) _ h in
    subst (λ v. (expect_array v >>= read_payload) ≡ returned (manifest_payload m))
      (returned-injective h1) (rw (manifest_from_cbor-manifest_to_cbor m inner is_inner s) refl)

epoch_from_cbor-epoch_to_cbor :
    (epoch : Option Bytes) → epoch_from_cbor (epoch_to_cbor epoch) ≡ returned epoch
epoch_from_cbor-epoch_to_cbor none = refl
epoch_from_cbor-epoch_to_cbor (some epoch) = refl

epoch_to_cbor-is_canonical :
    (codec : TextCodec) (epoch : Option Bytes) → is_canonical codec (epoch_to_cbor epoch) ≡ true
unfolding is_canonical
epoch_to_cbor-is_canonical codec none = refl
epoch_to_cbor-is_canonical codec (some epoch) = refl

chunks-are_canonical :
    (codec : TextCodec) (chunks : List PayloadChunk)
    → are_canonical codec (from_list (map chunk_to_cbor chunks)) ≡ true
unfolding is_canonical chunk_to_cbor encode_key compare_bytes
chunks-are_canonical codec [] = refl
chunks-are_canonical codec (chunk ∷ chunks) = rw (chunks-are_canonical codec chunks) refl

-- The maps of a payload are written in the order of their keys.
payload_to_cbor-is_canonical :
    (codec : TextCodec) (p : EnvelopePayload) (value : CborValue)
    → payload_to_cbor p ≡ returned value
    → is_canonical codec value ≡ true
unfolding payload_to_cbor manifest_to_cbor is_canonical encode_key compare_bytes
payload_to_cbor-is_canonical codec (inline_payload bytes) value h =
    subst (λ v. is_canonical codec v ≡ true) (returned-injective h) refl
payload_to_cbor-is_canonical codec (manifest_payload m) value h =
    let (inner, is_inner, h1) = bind-returned (manifest_to_cbor m) _ h in
    let (filled, is_fields) =
      invariant-returned (ltb 0 (length m.chunks)) schema_invalid _ is_inner in
    subst (λ v. is_canonical codec v ≡ true) (returned-injective h1)
      (subst (λ i. is_canonical codec (cbor_array (from_list (unsigned 1 ∷ i ∷ []))) ≡ true)
        (returned-injective is_fields) (rw (chunks-are_canonical codec m.chunks) refl))

envelope_fields-is_canonical :
    (codec : TextCodec) (e : ChronologEnvelope) (payload : CborValue)
    → payload_to_cbor e.payload ≡ returned payload
    → is_canonical codec (envelope_fields e payload) ≡ true
unfolding envelope_fields is_canonical encode_key compare_bytes
envelope_fields-is_canonical codec e payload h =
    rw
      (
        epoch_to_cbor-is_canonical codec e.encryption_epoch,
        payload_to_cbor-is_canonical codec e.payload payload h,
      )
      refl

-- If an envelope is encoded, whose digest has 32 bytes and whose manifest, if it has one, has digests of 32 bytes,
-- chunk sizes of at most 2^64 - 1 and as its total size the sum of them, at most 2^64 - 1 too, and if the
-- fields and the length of the encoding are within the decoder's default limits, then it is decoded to what
-- it was.
pub decode_envelope-encode_envelope :
    (codec : TextCodec) (e : ChronologEnvelope) (payload : CborValue) (bytes : Bytes)
    → payload_to_cbor e.payload ≡ returned payload
    → encode_envelope codec e ≡ returned bytes
    → IsPayload e.payload
    → length e.payload_digest ≡ 32
    → value_fits codec default_decode_limits 65 (envelope_fields e payload) ≡ true
    → length bytes ≤ 16777216
    → decode_envelope codec bytes ≡ returned e
unfolding encode_envelope decode_envelope any
decode_envelope-encode_envelope codec e payload bytes is_payload h s digest fits short =
    let encoded : encode codec (envelope_fields e payload) ≡ returned bytes =
      rw (is_payload, encode_envelope) at h in
    let accepted =
      assert_canonical-encode codec (envelope_fields e payload) bytes encoded
        (envelope_fields-is_canonical codec e payload is_payload, fits) (leb_lem short) in
    let (elements, is_array, reads) =
      bind-returned (expect_array payload) read_payload
        (read_payload-payload_to_cbor e.payload payload is_payload s) in
    rw
      (
        accepted,
        message_index_fits e.message_type,
        message_at-message_index e.message_type,
        epoch_from_cbor-epoch_to_cbor e.encryption_epoch,
        is_array,
        reads,
        nat_eq_lem digest,
      )
      refl
