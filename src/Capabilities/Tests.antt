-- ===== src/Capabilities/Tests.antt =====
-- Runs of the capability package's model at concrete inputs.
mod Log
use chronolog_db.Capabilities.Types.{
  CapabilityGrant, validator, CapabilitySnapshot, ValidationPolicy, ValidatorEvidence,
  PolicyEvaluation,
}
use chronolog_db.Canonical.{TextCodec, utf8}
use chronolog_db.Protocol.{TransactionCore, ValidatorAttestation, returned}
use chronolog_db.Capabilities.Activity.{is_capability_active, same_role, role_index}
use chronolog_db.Capabilities.Admission.{
  AdmissionProofEvaluation, invalid_attestation_context, assemble_admission_proof, policy_by_id,
  collect_evidence, validator_evidence_for_attestation, has_wrong_context, active_capability_by_id,
}
use chronolog_db.Capabilities.Admission.Authentic.{Backed, assemble_admission_proof-Backed}
use chronolog_db.Capabilities.Policy.{
  satisfying, solved, solve, improve, state_key, evaluate_validation_policy, missing_constraints,
  unique_evidence, keep_first, too_few, missing_classes, missing_organizations, sorted_policy,
  check_names, class_count, has_organization,
}
use chronolog_db.Prelude.{
  pair_beq, ◌≡◌, ◌≢◌, ◌⊎◌, ◌≤◌, ◌==◌, String_eq, if◌then◌else◌, refl, true, false, none, some,
  Option, List, [], ◌∷◌, SubOf, skip, keep, done, arith, length, String, option_beq, filter, any,
  sort, insert_sorted,
}
use chronolog_db.Prelude.Map
use chronolog_db.Bytes.{Bytes, bytes_equal, every_equal, compare_bytes}
use chronolog_db.Bytes.Laws.{Bytes_eq}
use chronolog_db.Capabilities.Policy.Smallest.{
  evaluate_validation_policy-finds, evaluate_validation_policy-decides,
}

abbrev piece : Bytes → Option String → ValidatorEvidence
piece id class = record {
  capability_id = id;
  validator_id = id;
  organization = none;
  validator_class = class;
}

-- An encoding for the two classes of the tests.
abbrev names : TextCodec
names = record {
  encode = λ text. if text == "agency" then 1 ∷ [] else 2 ∷ [];
  decode = λ bytes. if bytes_equal bytes (1 ∷ []) then some "agency" else some "bank";
}

-- Two validators, one of them of the class "bank"; the minimum of the other class is 0.
abbrev policy : ValidationPolicy
policy = record {
  version = 1;
  minimum_validators = 2;
  class_minimums = ("bank", 1) ∷ ("agency", 0) ∷ [];
  required_organizations = [];
}

abbrev in_order : ValidationPolicy
in_order = record policy { class_minimums = ("agency", 0) ∷ ("bank", 1) ∷ [] }

in_order_lem : sorted_policy names policy ≡ returned in_order
unfolding sorted_policy check_names utf8 sort insert_sorted option_beq bytes_equal every_equal
    compare_bytes
in_order_lem = refl

abbrev evidence : List ValidatorEvidence
evidence =
    piece (3 ∷ []) none
    ∷ piece (1 ∷ []) (some "bank")
    ∷ piece (2 ∷ []) none
    ∷ piece (1 ∷ []) (some "bank")
    ∷ []

abbrev pair : List ValidatorEvidence
pair = piece (1 ∷ []) (some "bank") ∷ piece (3 ∷ []) none ∷ []

unique_lem :
    unique_evidence evidence
    ≡ piece (1 ∷ []) (some "bank") ∷ piece (2 ∷ []) none ∷ piece (3 ∷ []) none ∷ []
unfolding unique_evidence keep_first sort insert_sorted compare_bytes Map.get Map.set Map.has
    bytes_equal every_equal
unique_lem = refl

pair-SubOf : SubOf pair (unique_evidence evidence)
pair-SubOf = rw unique_lem (
    keep (piece (1 ∷ []) (some "bank"))
      (skip (piece (2 ∷ []) none) (keep (piece (3 ∷ []) none) done)))

pair_lem : missing_constraints in_order pair ≡ []
unfolding missing_constraints too_few missing_classes missing_organizations class_count
    has_organization filter any sort insert_sorted option_beq
pair_lem = refl

evaluate_validation_policy-finds_example :
    (r : PolicyEvaluation) × (evaluate_validation_policy names policy evidence ≡ returned r)
    × (r.satisfied ≡ true)
    × (r.missing ≡ [])
    × SubOf r.selected (unique_evidence evidence)
    × (missing_constraints in_order r.selected ≡ [])
    × (length r.selected ≤ 2)
evaluate_validation_policy-finds_example =
    evaluate_validation_policy-finds names policy in_order evidence pair in_order_lem (omega arith)
      pair-SubOf pair_lem

evaluate_validation_policy-decides_example :
    (r : PolicyEvaluation) × (evaluate_validation_policy names policy (piece (3 ∷ []) none ∷ [])
      ≡ returned r)
    × (((r.satisfied ≡ true)
          × (r.missing ≡ [])
          × SubOf r.selected (unique_evidence (piece (3 ∷ []) none ∷ []))
          × (missing_constraints in_order r.selected ≡ []))
        ⊎ ((r.satisfied ≡ false)
            × (r.selected ≡ [])
            × (r.missing
                ≡ missing_constraints in_order (unique_evidence (piece (3 ∷ []) none ∷ [])))
            × (r.missing ≢ [])))
evaluate_validation_policy-decides_example =
    evaluate_validation_policy-decides names policy in_order (piece (3 ∷ []) none ∷ []) in_order_lem
      (omega arith)

abbrev one_validator : ValidationPolicy
one_validator = record {
  version = 1;
  minimum_validators = 1;
  class_minimums = [];
  required_organizations = [];
}

abbrev grant_of : Bytes → CapabilityGrant
grant_of key = record {
  subject_id = key;
  signing_public_key = key;
  transport_author = none;
  role = validator;
  valid_from_revision = 0;
  valid_until_revision = none;
  organization = none;
  validator_class = none;
  minimum_author_timestamp_ms = some 5;
  reader_scope = none;
  hpke_public_key = none;
}

abbrev group : CapabilitySnapshot
group = record {
  group_id = 9 ∷ [];
  revision = 2;
  revision_digest = 8 ∷ [];
  root_admin_public_key = [];
  capability_log_feed = [];
  capabilities =
      (
        11 ∷ [],
        record {
          id = 11 ∷ [];
          grant = grant_of (1 ∷ []);
          granted_at_revision = 0;
          revoked_at_revision = none;
        },
      )
      ∷ [];
  policies =
      (7 ∷ [], record { id = 7 ∷ []; policy = one_validator; installed_at_revision = 0 }) ∷ [];
  recovery_public_keys = ([], ([], []));
  recovery_threshold = 2;
  history_reopened = false;
  recovery_event_digest = none;
}

abbrev transaction : TransactionCore (Unit {0})
transaction = record {
  group_id = 9 ∷ [];
  membership_revision = 8 ∷ [];
  validation_policy = 7 ∷ [];
  author_id = 4 ∷ [];
  author_timestamp_ms = 20;
  nonce = [];
  execution_manifest_digest = [];
  program = tt;
  metadata = none;
}

-- An attestation of the validator, and one for another transaction.
abbrev attestation_for : Bytes → ValidatorAttestation
attestation_for tx_id = record {
  group_id = 9 ∷ [];
  membership_revision = 8 ∷ [];
  validator_capability = 11 ∷ [];
  tx_id = tx_id;
  validator_id = 1 ∷ [];
  author_timestamp_ms = 20;
  accepted_above_ms = 10;
  candidate_digest = 6 ∷ [];
  policy_version = 1;
}

abbrev attestations : List ValidatorAttestation
attestations = attestation_for (2 ∷ []) ∷ attestation_for (3 ∷ []) ∷ []

abbrev accepted : AdmissionProofEvaluation
accepted = record {
  evaluation = record {
    satisfied = true;
    selected =
        record {
          capability_id = 11 ∷ [];
          validator_id = 1 ∷ [];
          organization = none;
          validator_class = none;
        }
        ∷ [];
    missing = [];
  };
  considered_attestations = 1;
  rejected_attestations = invalid_attestation_context ∷ [];
}

accepted_lem :
    assemble_admission_proof names group transaction (3 ∷ []) (6 ∷ []) attestations
    ≡ returned accepted
unfolding assemble_admission_proof policy_by_id collect_evidence validator_evidence_for_attestation
    has_wrong_context active_capability_by_id is_capability_active same_role role_index
    evaluate_validation_policy unique_evidence keep_first sort insert_sorted filter any
    missing_constraints too_few missing_classes missing_organizations sorted_policy class_count
    has_organization Map.get Map.set Map.has bytes_equal every_equal compare_bytes satisfying solved
    solve improve pair_beq state_key
accepted_lem = refl

policy_lem : policy_by_id group (7 ∷ []) ≡ some one_validator
unfolding policy_by_id Map.get bytes_equal every_equal
policy_lem = refl

assemble_admission_proof-Backed_example :
    Backed group transaction (3 ∷ []) (6 ∷ []) 1 attestations (record {
      capability_id = 11 ∷ [];
      validator_id = 1 ∷ [];
      organization = none;
      validator_class = none;
    })
assemble_admission_proof-Backed_example =
    assemble_admission_proof-Backed names group transaction (3 ∷ []) (6 ∷ []) attestations
      one_validator accepted 0
      (record {
        capability_id = 11 ∷ [];
        validator_id = 1 ∷ [];
        organization = none;
        validator_class = none;
      })
      policy_lem accepted_lem refl
