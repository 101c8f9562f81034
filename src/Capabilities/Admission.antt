-- ===== src/Capabilities/Admission.antt =====
-- packages/capabilities/src/admission.ts: who may author, attest and read at a capability snapshot, and
-- the admission proof that a policy accepts.
pub mod Authentic
use chronolog_db.Prelude.{
  ℕ, ◌+◌, Bool, true, false, ◌&&◌, ◌||◌, not, Option, none, some, List, [], ◌∷◌, map, ltb, leb,
  nat_eq, length, filter, any, if◌then◌else◌,
}
use chronolog_db.Prelude.Map
use chronolog_db.Prelude.Map.{Map}
use chronolog_db.Bytes.{Bytes, bytes_equal}
use chronolog_db.Bytes.Laws.{Bytes_eq}
use chronolog_db.Canonical.{TextCodec}
use chronolog_db.Protocol.{TransactionCore, ValidatorAttestation, Outcome, returned, thrown, ◌>>=◌}
use chronolog_db.Capabilities.Types.{
  CapabilityRole, reader, writer, validator, ReaderHistoryScope, snapshot_scope, audit_scope,
  ValidationPolicy, EffectivePolicy, EffectiveCapability, CapabilitySnapshot, ValidatorEvidence,
  PolicyEvaluation, unknown_policy_constraint,
}
use chronolog_db.Capabilities.Policy.{evaluate_validation_policy}
use chronolog_db.Capabilities.Activity.{is_capability_active, same_role}

pub data RejectionReason : Type 0 where
  unknown_policy wrong_policy_version invalid_attestation_context : RejectionReason

pub record AdmissionProofEvaluation : Type 0 where
  pub evaluation : PolicyEvaluation
  pub considered_attestations : ℕ
  pub rejected_attestations : List RejectionReason

abbrev pub if_active : ℕ → Option EffectiveCapability → Option EffectiveCapability
if_active revision none = none
if_active revision (some capability) =
    if is_capability_active capability revision then some capability else none

unfoldable pub active_capability_by_id : CapabilitySnapshot → Bytes → ℕ → Option EffectiveCapability
active_capability_by_id snapshot id revision = if_active revision (Map.get snapshot.capabilities id)

unfoldable pub policy_by_id : CapabilitySnapshot → Bytes → Option ValidationPolicy
policy_by_id snapshot id = elim (Map.get snapshot.policies id) [
  | none ↦ none
  | some entry ↦ some entry.policy
]

-- `floor ?? -1n`: without a floor no timestamp is at or below it.
abbrev pub is_at_most_floor : ℕ → Option ℕ → Bool
is_at_most_floor timestamp none = false
is_at_most_floor timestamp (some floor) = leb timestamp floor

-- The evidence of an attestation whose context was accepted, by the capability it names.
abbrev pub evidence_of :
    ValidatorAttestation → ℕ → Option EffectiveCapability → Option ValidatorEvidence
evidence_of attestation timestamp none = none
evidence_of attestation timestamp (some capability) =
    if not (same_role capability.grant.role validator)
      || not (bytes_equal capability.grant.signing_public_key attestation.validator_id)
      || is_at_most_floor timestamp capability.grant.minimum_author_timestamp_ms
    then none
    else some (record {
      capability_id = capability.id;
      validator_id = attestation.validator_id;
      organization = capability.grant.organization;
      validator_class = capability.grant.validator_class;
    })

-- One turn of the loop over the attestations, at what the later ones give.
abbrev pub sort_in :
    Option ValidatorEvidence
    → List ValidatorEvidence × List RejectionReason
    → List ValidatorEvidence × List RejectionReason
sort_in none (evidence, rejected) = (evidence, invalid_attestation_context ∷ rejected)
sort_in (some item) (evidence, rejected) = (item ∷ evidence, rejected)

module _ {ℓ} {Program : Type ℓ} where
  unfoldable pub can_author_transaction : CapabilitySnapshot → TransactionCore Program → Bool
  can_author_transaction snapshot core =
      if not (bytes_equal snapshot.group_id core.group_id)
        || not (bytes_equal snapshot.revision_digest core.membership_revision)
      then false
      else any
          (λ capability.
            same_role capability.grant.role writer
            && bytes_equal capability.grant.signing_public_key core.author_id
            && is_capability_active capability snapshot.revision)
          (Map.values snapshot.capabilities)

  -- The first condition of `validatorEvidenceForAttestation`.
  unfoldable pub has_wrong_context :
      CapabilitySnapshot → ValidatorAttestation → TransactionCore Program → Bytes → Bytes → Bool
  has_wrong_context snapshot attestation core tx_id candidate_digest =
      not (bytes_equal attestation.group_id snapshot.group_id)
      || not (bytes_equal core.group_id snapshot.group_id)
      || not (bytes_equal attestation.membership_revision snapshot.revision_digest)
      || not (bytes_equal core.membership_revision snapshot.revision_digest)
      || not (bytes_equal attestation.tx_id tx_id)
      || not (bytes_equal attestation.candidate_digest candidate_digest)
      || not (nat_eq attestation.author_timestamp_ms core.author_timestamp_ms)
      || leb attestation.author_timestamp_ms attestation.accepted_above_ms

  unfoldable pub validator_evidence_for_attestation :
      CapabilitySnapshot
      → ValidatorAttestation
      → TransactionCore Program
      → Bytes
      → Bytes
      → Option ValidatorEvidence
  unfolding has_wrong_context
  validator_evidence_for_attestation snapshot attestation core tx_id candidate_digest =
      if has_wrong_context snapshot attestation core tx_id candidate_digest
      then none
      else evidence_of attestation core.author_timestamp_ms
          (active_capability_by_id snapshot attestation.validator_capability snapshot.revision)

  unfoldable pub collect_evidence :
      CapabilitySnapshot
      → TransactionCore Program
      → Bytes
      → Bytes
      → ℕ
      → List ValidatorAttestation
      → List ValidatorEvidence × List RejectionReason
  collect_evidence snapshot core tx_id candidate_digest version [] = ([], [])
  collect_evidence snapshot core tx_id candidate_digest version (attestation ∷ attestations) =
      let rest = collect_evidence snapshot core tx_id candidate_digest version attestations in
      if nat_eq attestation.policy_version version
      then sort_in
          (validator_evidence_for_attestation snapshot attestation core tx_id candidate_digest) rest
      else (rest.0, wrong_policy_version ∷ rest.1)

  -- The evaluation at the policy that the transaction names.
  abbrev pub assemble_with :
      TextCodec
      → CapabilitySnapshot
      → TransactionCore Program
      → Bytes
      → Bytes
      → List ValidatorAttestation
      → Option ValidationPolicy
      → Outcome AdmissionProofEvaluation
  assemble_with codec snapshot core tx_id candidate_digest attestations none = returned (record {
    evaluation = record {
      satisfied = false;
      selected = [];
      missing = unknown_policy_constraint ∷ [];
    };
    considered_attestations = 0;
    rejected_attestations = map (λ a. unknown_policy) attestations;
  })
  assemble_with codec snapshot core tx_id candidate_digest attestations (some policy) =
      let (evidence, rejected) =
        collect_evidence snapshot core tx_id candidate_digest policy.version attestations in
      evaluate_validation_policy codec policy evidence >>= λ evaluation. returned (record {
        evaluation = evaluation;
        considered_attestations = length evidence;
        rejected_attestations = rejected;
      })

  unfoldable pub assemble_admission_proof :
      TextCodec
      → CapabilitySnapshot
      → TransactionCore Program
      → Bytes
      → Bytes
      → List ValidatorAttestation
      → Outcome AdmissionProofEvaluation
  assemble_admission_proof codec snapshot core tx_id candidate_digest attestations =
      assemble_with codec snapshot core tx_id candidate_digest attestations
        (policy_by_id snapshot core.validation_policy)

-- `readerScope === 'audit'`
abbrev pub has_audit_scope : Option ReaderHistoryScope → Bool
has_audit_scope (some audit_scope) = true
has_audit_scope _ = false

unfoldable pub can_reader_access_revision : EffectiveCapability → ℕ → Bool
can_reader_access_revision capability membership_revision =
    if not (same_role capability.grant.role reader)
    then false
    else if has_audit_scope capability.grant.reader_scope
    then true
    else leb capability.grant.valid_from_revision membership_revision

-- A recipient; the key is a reader's, so it is there when the grant came through the codec.
pub record Recipient : Type 0 where
  pub recipient_id : Bytes
  pub public_key : Option Bytes

-- `new Map(readers.map((reader) => [key, reader]))`: the last reader of a key stays.
unfoldable pub index_recipients : List Recipient → Map Bytes Recipient → Map Bytes Recipient
index_recipients [] unique = unique
index_recipients (r ∷ readers) unique = index_recipients readers (Map.set unique r.recipient_id r)

unfoldable pub reader_recipients_for_revision : CapabilitySnapshot → ℕ → List Recipient
unfolding index_recipients
reader_recipients_for_revision snapshot membership_revision =
    let readers =
      filter
        (λ capability.
          is_capability_active capability snapshot.revision
          && can_reader_access_revision capability membership_revision)
        (Map.values snapshot.capabilities) in
    let recipients =
      map
        (λ capability. record {
          recipient_id = capability.grant.subject_id;
          public_key = capability.grant.hpke_public_key;
        })
        readers in
    Map.values (index_recipients recipients [])
