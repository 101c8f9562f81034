-- ===== src/ControlStore/Types.antt =====
-- packages/control-store/src/types.ts. `bigint` and `number` fields that the protocol keeps unsigned
-- are ℕ; an optional field is an `Option`; `structuredClone` of a value is the value.
use chronolog_db.Prelude.{ℕ, Bool, Option, List, String}
use chronolog_db.Bytes.{Bytes}
use chronolog_db.Bytes.Laws.{Bytes_eq}
use chronolog_db.OrderKey.{TransactionOrderKey, TransactionOrderKey_eq}

pub data CandidateState : Type 0 where
  waiting_for_payload pending_validation admissible : CandidateState
  invalid_protocol unauthorized quarantined : CandidateState

pub record StoredCandidate : Type 0 where
  pub tx_id : Bytes
  pub group_id : Bytes
  pub candidate_digest : Bytes
  pub validation_policy : Bytes
  pub order_key : TransactionOrderKey
  pub canonical_payload : Option Bytes
  pub state : CandidateState
  pub state_reason : Option String
  pub proof_attestation_ids : List Bytes

-- The candidate's fields, with the proofs left optional.
pub record PutCandidateInput : Type 0 where
  pub tx_id : Bytes
  pub group_id : Bytes
  pub candidate_digest : Bytes
  pub validation_policy : Bytes
  pub order_key : TransactionOrderKey
  pub canonical_payload : Option Bytes
  pub state : CandidateState
  pub state_reason : Option String
  pub proof_attestation_ids : Option (List Bytes)

pub record StoredAttestation : Type 0 where
  pub attestation_id : Bytes
  pub tx_id : Bytes
  pub validator_id : Bytes
  pub validator_capability : Bytes
  pub membership_revision : Bytes
  pub candidate_digest : Bytes
  pub validator_feed_sequence : ℕ
  pub author_timestamp_ms : ℕ
  pub accepted_above_ms : ℕ
  pub policy_version : ℕ
  pub transport_author : String

pub record ValidatorHeartbeat : Type 0 where
  pub heartbeat_id : Bytes
  pub validator_id : Bytes
  pub validator_capability : Bytes
  pub membership_revision : Bytes
  pub validator_feed_sequence : ℕ
  pub acceptance_cutoff_ms : ℕ
  pub feed_contiguous : Bool

pub data WatermarkPolicy : Type 0 where
  threshold_policy : String → List Bytes → ℕ → WatermarkPolicy
  proof_alternatives : String → List (List Bytes) → WatermarkPolicy

pub data WatermarkExplanation : Type 0 where
  established insufficient_contiguous_heartbeats invalid_policy : WatermarkExplanation

pub record WatermarkEvidence : Type 0 where
  pub policy_id : String
  pub cutoff_ms : Option ℕ
  pub blocking_validator_ids : List Bytes
  pub heartbeat_ids : List Bytes
  pub explanation : WatermarkExplanation

pub record SettlementEvidence : Type 0 where
  pub tx_id : Bytes
  pub candidate_state : CandidateState
  pub order_key : TransactionOrderKey
  pub proof_attestation_ids : List Bytes
  pub watermark : WatermarkEvidence
  pub below_watermark : Bool
  pub unresolved_attestation_ids : List Bytes
  pub history_reopening_ids : List String

pub record MaterializedHead : Type 0 where
  pub local_revision : ℕ
  pub head_ref : String
  pub order_length : ℕ
  pub order_digest : Bytes

pub record StoredCheckpoint : Type 0 where
  pub prefix_length : ℕ
  pub checkpoint_ref : String
  pub prefix_digest : Bytes
  pub pinned : Bool

pub record HistoryReopening : Type 0 where
  pub id : String
  pub floor_ms : ℕ
  pub membership_revision : Bytes
  pub reason : String

-- What a delta tells, `Omit<ControlStoreDelta, 'sequence'>`, by its `kind`.
pub data DeltaEvent : Type 0 where
  candidate_added : Bytes → CandidateState → DeltaEvent
  candidate_state_changed : Bytes → CandidateState → CandidateState → Option String → DeltaEvent
  attestation_added : Bytes → Bytes → Bool → DeltaEvent
  order_append order_insert : Bytes → ℕ → ℕ → DeltaEvent
  heartbeat_advanced : Bytes → Bytes → ℕ → Bool → DeltaEvent
  materialized_head_published : MaterializedHead → DeltaEvent
  checkpoint_stored : StoredCheckpoint → DeltaEvent
  history_reopened : HistoryReopening → DeltaEvent

pub record ControlStoreDelta : Type 0 where
  pub sequence : ℕ
  pub event : DeltaEvent

pub record ValidatorCutoffState : Type 0 where
  pub validator_id : Bytes
  pub accepted_above_ms : ℕ

pub record ControlStoreSnapshot : Type 0 where
  pub sequence : ℕ
  pub candidates : List StoredCandidate
  pub attestations : List StoredAttestation
  pub heartbeats : List ValidatorHeartbeat
  pub ordered_tx_ids : List Bytes
  pub deltas : List ControlStoreDelta
  pub delta_floor : Option ℕ
  pub materialized_head : Option MaterializedHead
  pub checkpoints : List StoredCheckpoint
  pub history_reopenings : List HistoryReopening
  pub validator_cutoffs : Option (List ValidatorCutoffState)

pub record AdmissionEvaluation : Type 0 where
  pub state : CandidateState
  pub proof_attestation_ids : Option (List Bytes)
  pub reason : Option String
