-- ===== src/ControlStore/Same.antt =====
-- `sameValue`, `sameCandidateIdentity` and `sameBytesList` of
-- packages/control-store/src/control-store.ts, at the types at which the store calls them: two
-- objects are the same if all their fields are.
use chronolog_db.Prelude.{
  Bool, true, false, List, ◌==◌, ◌&&◌, ◌≡◌, ◌↔◌, arith, ℕ_eq, String_eq, Option_eq,
}
use chronolog_db.Bytes.{Bytes}
use chronolog_db.Bytes.Laws.{Bytes_eq, BytesList_eq}
use chronolog_db.OrderKey.{TransactionOrderKey_eq}
use chronolog_db.ControlStore.Types.{
  CandidateState, waiting_for_payload, pending_validation, admissible, invalid_protocol,
  unauthorized, quarantined, StoredCandidate, StoredAttestation, ValidatorHeartbeat,
  MaterializedHead, StoredCheckpoint, HistoryReopening,
}

unfoldable pub same_state : CandidateState → CandidateState → Bool
same_state waiting_for_payload waiting_for_payload = true
same_state pending_validation pending_validation = true
same_state admissible admissible = true
same_state invalid_protocol invalid_protocol = true
same_state unauthorized unauthorized = true
same_state quarantined quarantined = true
same_state _ _ = false

pub same_state_iff : (a b : CandidateState) → (same_state a b ≡ true) ↔ (a ≡ b)
unfolding same_state
same_state_iff a b = ground arith

unfoldable pub same_bool : Bool → Bool → Bool
same_bool true b = b
same_bool false true = false
same_bool false false = true

unfoldable pub same_candidate_identity : StoredCandidate → StoredCandidate → Bool
same_candidate_identity a b =
    a.tx_id == b.tx_id
    && a.group_id == b.group_id
    && a.candidate_digest == b.candidate_digest
    && a.validation_policy == b.validation_policy
    && a.order_key == b.order_key
    && a.canonical_payload == b.canonical_payload

unfoldable pub same_attestation : StoredAttestation → StoredAttestation → Bool
same_attestation a b =
    a.attestation_id == b.attestation_id
    && a.tx_id == b.tx_id
    && a.validator_id == b.validator_id
    && a.validator_capability == b.validator_capability
    && a.membership_revision == b.membership_revision
    && a.candidate_digest == b.candidate_digest
    && a.validator_feed_sequence == b.validator_feed_sequence
    && a.author_timestamp_ms == b.author_timestamp_ms
    && a.accepted_above_ms == b.accepted_above_ms
    && a.policy_version == b.policy_version
    && a.transport_author == b.transport_author

unfoldable pub same_heartbeat : ValidatorHeartbeat → ValidatorHeartbeat → Bool
unfolding same_bool
same_heartbeat a b =
    a.heartbeat_id == b.heartbeat_id
    && a.validator_id == b.validator_id
    && a.validator_capability == b.validator_capability
    && a.membership_revision == b.membership_revision
    && a.validator_feed_sequence == b.validator_feed_sequence
    && a.acceptance_cutoff_ms == b.acceptance_cutoff_ms
    && same_bool a.feed_contiguous b.feed_contiguous

unfoldable pub same_head : MaterializedHead → MaterializedHead → Bool
same_head a b =
    a.local_revision == b.local_revision
    && a.head_ref == b.head_ref
    && a.order_length == b.order_length
    && a.order_digest == b.order_digest

unfoldable pub same_checkpoint : StoredCheckpoint → StoredCheckpoint → Bool
unfolding same_bool
same_checkpoint a b =
    a.prefix_length == b.prefix_length
    && a.checkpoint_ref == b.checkpoint_ref
    && a.prefix_digest == b.prefix_digest
    && same_bool a.pinned b.pinned

unfoldable pub same_reopening : HistoryReopening → HistoryReopening → Bool
same_reopening a b =
    a.id == b.id
    && a.floor_ms == b.floor_ms
    && a.membership_revision == b.membership_revision
    && a.reason == b.reason

-- `sameBytesList`
unfoldable pub same_bytes_list : List Bytes → List Bytes → Bool
same_bytes_list a b = a == b
