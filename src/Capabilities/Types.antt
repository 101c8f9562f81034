-- ===== src/Capabilities/Types.antt =====
-- packages/capabilities/src/types.ts. The codec refuses what is no unsigned integer, so revisions,
-- timestamps and minimums are ℕ. A map whose keys are the hexadecimal digits of an identifier is keyed
-- by the identifier.
use chronolog_db.Prelude.{ℕ, Bool, Option, List, String}
use chronolog_db.Prelude.Map.{Map}
use chronolog_db.Bytes.{Bytes}

pub data CapabilityRole : Type 0 where
  reader writer validator administrator schema_administrator : CapabilityRole

pub data ReaderHistoryScope : Type 0 where
  snapshot_scope audit_scope : ReaderHistoryScope

pub record CapabilityGrant : Type 0 where
  pub subject_id : Bytes
  pub signing_public_key : Bytes
  pub transport_author : Option String
  pub role : CapabilityRole
  pub valid_from_revision : ℕ
  pub valid_until_revision : Option ℕ
  pub organization : Option String
  pub validator_class : Option String
  pub minimum_author_timestamp_ms : Option ℕ
  pub reader_scope : Option ReaderHistoryScope
  pub hpke_public_key : Option Bytes

pub record ValidationPolicy : Type 0 where
  pub version : ℕ
  pub minimum_validators : ℕ
  pub class_minimums : Map String ℕ
  pub required_organizations : List String

pub record ClockPolicy : Type 0 where
  pub max_future_skew_ms : ℕ
  pub cutoff_lag_ms : ℕ
  pub heartbeat_interval_ms : ℕ

pub record ResourcePolicy : Type 0 where
  pub max_candidate_bytes : ℕ
  pub max_program_nodes : ℕ
  pub max_preconditions : ℕ
  pub max_mutations : ℕ

pub record GenesisManifest : Type 0 where
  pub group_id : Bytes
  pub schema_id : Bytes
  pub root_admin_public_key : Bytes
  pub capability_log_feed : Bytes
  pub recovery_public_keys : Bytes × (Bytes × Bytes)
  pub recovery_threshold : ℕ
  pub initial_capabilities : List CapabilityGrant
  pub validation_policies : List ValidationPolicy
  pub clock_policy : ClockPolicy
  pub resource_policy : ResourcePolicy
  pub encryption_suite : String
  pub created_at_ms : ℕ

pub record SignedGenesis : Type 0 where
  pub manifest : GenesisManifest
  pub signature : Bytes

pub record CapabilityRevision : Type 0 where
  pub group_id : Bytes
  pub revision : ℕ
  pub previous_revision_digest : Bytes
  pub issuer_root_public_key : Bytes
  pub grants : List CapabilityGrant
  pub revocations : List Bytes
  pub validation_policies : List ValidationPolicy
  pub successor_root_public_key : Option Bytes
  pub successor_capability_log_feed : Option Bytes

pub record SignedCapabilityRevision : Type 0 where
  pub revision : CapabilityRevision
  pub signature : Bytes

pub record EffectiveCapability : Type 0 where
  pub id : Bytes
  pub grant : CapabilityGrant
  pub granted_at_revision : ℕ
  pub revoked_at_revision : Option ℕ

pub record EffectivePolicy : Type 0 where
  pub id : Bytes
  pub policy : ValidationPolicy
  pub installed_at_revision : ℕ

pub record CapabilitySnapshot : Type 0 where
  pub group_id : Bytes
  pub revision : ℕ
  pub revision_digest : Bytes
  pub root_admin_public_key : Bytes
  pub capability_log_feed : Bytes
  pub capabilities : Map Bytes EffectiveCapability
  pub policies : Map Bytes EffectivePolicy
  pub recovery_public_keys : Bytes × (Bytes × Bytes)
  pub recovery_threshold : ℕ
  pub history_reopened : Bool
  pub recovery_event_digest : Option Bytes

pub record ValidatorEvidence : Type 0 where
  pub capability_id : Bytes
  pub validator_id : Bytes
  pub organization : Option String
  pub validator_class : Option String

-- A text of `missing`, by its parts: `validators:n`, `class:name:n`, `organization:name` and
-- `policy:unknown`.
pub data MissingConstraint : Type 0 where
  missing_validators : ℕ → MissingConstraint
  missing_class : String → ℕ → MissingConstraint
  missing_organization : String → MissingConstraint
  unknown_policy_constraint : MissingConstraint

pub record PolicyEvaluation : Type 0 where
  pub satisfied : Bool
  pub selected : List ValidatorEvidence
  pub missing : List MissingConstraint

pub record RecoveryPayload : Type 0 where
  pub group_id : Bytes
  pub last_revision : ℕ
  pub last_revision_digest : Bytes
  pub new_revision : ℕ
  pub new_root_public_key : Bytes
  pub new_capability_log_feed : Bytes
  pub validator_grants : List CapabilityGrant
  pub reopen_history : Bool
  pub reopening_reason : Option String

pub record RecoverySignature : Type 0 where
  pub recovery_key_index : ℕ
  pub signature : Bytes

pub record RecoveryRecord : Type 0 where
  pub payload : RecoveryPayload
  pub signatures : List RecoverySignature
