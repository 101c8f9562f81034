-- ===== src/Protocol/Messages.antt =====
-- packages/protocol/src/messages.ts: the messages, their digests, chunked payloads and order keys. The codecs are
-- below.
pub mod Codec
pub mod Transaction
pub mod Envelope
pub mod RoundTrip
pub mod Manifest
pub mod OrderKeys
use chronolog_db.Prelude.{
  ℕ, ◌+◌, Ordering, Bool, true, false, not, Option, none, some, List, [], ◌∷◌, ◌++◌, map, ltb,
  nat_eq, length, sort,
}
use chronolog_db.Bytes.{Bytes, bytes_equal}
use chronolog_db.OrderKey.{TransactionOrderKey, compare_transaction_order}
use chronolog_db.Canonical.{TextCodec}
use chronolog_db.Protocol.{
  Outcome, returned, thrown, ◌>>=◌, ◌>>◌, protocol_invariant, schema_invalid, digest_mismatch,
  duplicate_transaction, TransactionCore,
}
use chronolog_db.Protocol.Schema.{traverse}
use chronolog_db.Protocol.Primitives.{Crypto, hash_domain, envelope_domain, payload_chunk_domain}

pub record PayloadChunk : Type 0 where
  pub digest : Bytes
  pub size : ℕ

pub record PayloadManifest : Type 0 where
  pub total_digest : Bytes
  pub total_size : ℕ
  pub chunks : List PayloadChunk

pub data EnvelopeMessageType : Type 0 where
  candidate attestation heartbeat capability recovery epoch_manifest : EnvelopeMessageType
  proof_bundle snapshot_message : EnvelopeMessageType

pub data EnvelopePayload : Type 0 where
  inline_payload : Bytes → EnvelopePayload
  manifest_payload : PayloadManifest → EnvelopePayload

pub record ChronologEnvelope : Type 0 where
  pub group_route : Bytes
  pub message_type : EnvelopeMessageType
  pub encryption_epoch : Option Bytes
  pub payload_digest : Bytes
  pub payload : EnvelopePayload

pub record ValidatorHeartbeat : Type 0 where
  pub group_id : Bytes
  pub membership_revision : Bytes
  pub validator_capability : Bytes
  pub validator_id : Bytes
  pub acceptance_cutoff_ms : ℕ

pub record CandidateTransportIdentity : Type 0 where
  pub author_feed_sequence : ℕ
  pub tx_id : Bytes

unfoldable pub transaction_order_key {ℓ} :
    {Program : Type ℓ} → TransactionCore Program → CandidateTransportIdentity → TransactionOrderKey
transaction_order_key core transport = record {
  author_timestamp_ms = core.author_timestamp_ms;
  author_id = core.author_id;
  author_feed_sequence = transport.author_feed_sequence;
  tx_id = transport.tx_id;
}

abbrev pub compare_equal : TransactionOrderKey → TransactionOrderKey → Bool
compare_equal left right = elim (compare_transaction_order left right) [
  | Ordering.lt ↦ false
  | Ordering.eq ↦ true
  | Ordering.gt ↦ false
]

-- The loop over the neighbors in the sorted list.
unfoldable pub check_neighbors : List TransactionOrderKey → Outcome (Unit {0})
unfolding compare_transaction_order
check_neighbors [] = returned tt
check_neighbors (k ∷ []) = returned tt
check_neighbors (j ∷ k ∷ keys) =
    let rest = check_neighbors (k ∷ keys) in
    protocol_invariant (not (compare_equal j k)) duplicate_transaction >> rest

unfoldable pub assert_unique_order_keys : List TransactionOrderKey → Outcome (Unit {0})
unfolding check_neighbors compare_transaction_order
assert_unique_order_keys keys = check_neighbors (sort compare_transaction_order keys)

-- `concatBytes`
unfoldable pub concat_bytes : List Bytes → Bytes
concat_bytes [] = []
concat_bytes (part ∷ parts) = part ++ concat_bytes parts

unfoldable pub check_digest : Outcome Bytes → Bytes → Outcome (Unit {0})
check_digest computed expected =
    computed >>= λ digest. protocol_invariant (bytes_equal digest expected) digest_mismatch

module _ (codec : TextCodec) (crypto : Crypto) where
  unfoldable pub payload_digest : Bytes → Outcome Bytes
  unfolding hash_domain
  payload_digest bytes = hash_domain codec crypto envelope_domain bytes

  unfoldable pub payload_chunk_digest : Bytes → Outcome Bytes
  unfolding hash_domain
  payload_chunk_digest bytes = hash_domain codec crypto payload_chunk_domain bytes

  abbrev pub describe_chunk : Bytes → Outcome PayloadChunk
  describe_chunk chunk = payload_chunk_digest chunk >>= λ digest.
      returned (record { digest = digest; size = length chunk })

  unfoldable pub create_payload_manifest : List Bytes → Outcome PayloadManifest
  unfolding concat_bytes payload_digest payload_chunk_digest
  create_payload_manifest chunks = do
    protocol_invariant (ltb 0 (length chunks)) schema_invalid
    total_digest ← payload_digest (concat_bytes chunks)
    described ← traverse describe_chunk chunks
    returned (record {
      total_digest = total_digest;
      total_size = length (concat_bytes chunks);
      chunks = described;
    })

  -- The loop over the chunks, of which there are as many as the manifest has.
  unfoldable pub verify_chunks : List Bytes → List PayloadChunk → Outcome (Unit {0})
  unfolding payload_chunk_digest check_digest
  verify_chunks [] expected = returned tt
  verify_chunks (chunk ∷ chunks) [] = returned tt
  verify_chunks (chunk ∷ chunks) (e ∷ expected) =
      let rest = verify_chunks chunks expected in
      protocol_invariant (nat_eq (length chunk) e.size) digest_mismatch
      >> check_digest (payload_chunk_digest chunk) e.digest
      >> rest

  unfoldable pub verify_payload_manifest : PayloadManifest → List Bytes → Outcome Bytes
  unfolding verify_chunks concat_bytes check_digest payload_digest
  verify_payload_manifest manifest chunks = do
    protocol_invariant (nat_eq (length chunks) (length manifest.chunks)) digest_mismatch
    verify_chunks chunks manifest.chunks
    let payload = concat_bytes chunks
    protocol_invariant (nat_eq (length payload) manifest.total_size) digest_mismatch
    check_digest (payload_digest payload) manifest.total_digest
    returned payload

  abbrev payload_bytes : EnvelopePayload → List Bytes → Outcome Bytes
  payload_bytes (inline_payload bytes) chunks = returned bytes
  payload_bytes (manifest_payload m) chunks = verify_payload_manifest m chunks

  unfoldable pub resolve_envelope_payload : ChronologEnvelope → List Bytes → Outcome Bytes
  unfolding verify_payload_manifest check_digest payload_digest
  resolve_envelope_payload envelope chunks = do
    payload ← payload_bytes envelope.payload chunks
    check_digest (payload_digest payload) envelope.payload_digest
    returned payload
