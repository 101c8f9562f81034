-- ===== src/ControlStore/Transitions.antt =====
-- Changes of the state of a candidate: setCandidateState and evaluateAdmission of
-- packages/control-store/src/control-store.ts.
use chronolog_db.Prelude.{
  not, ◌&&◌, ◌||◌, Option, none, some, List, [], ◌∷◌, String, ◌==◌, ℕ_eq, String_eq, Option_eq,
  if◌then◌else◌,
}
use chronolog_db.Prelude.Map
use chronolog_db.Bytes.{Bytes}
use chronolog_db.Bytes.Laws.{Bytes_eq}
use chronolog_db.ControlStore.Types.{
  CandidateState, admissible, StoredCandidate, StoredAttestation, AdmissionEvaluation,
  ControlStoreDelta, candidate_state_changed,
}
use chronolog_db.ControlStore.Same.{same_state, same_bytes_list}
use chronolog_db.ControlStore.Result.{
  Result, ok, err, ◌>>◌, candidate_not_admission_eligible, invalid_admission_proof,
}
use chronolog_db.ControlStore.State.{ControlStore, append_delta}
use chronolog_db.ControlStore.Insert.{required_candidate}
use chronolog_db.ControlStore.Candidates.{
  is_terminal_invalid, is_admissible, is_waiting, validate_state_transition, finish_order,
  attestations_for,
}

-- Every attestation of a proof is stored and is about the transaction.
unfoldable pub check_proof : ControlStore → Bytes → List Bytes → Result (Unit {0})
check_proof s tx_id [] = ok tt
check_proof s tx_id (id ∷ ids) =
    let rest = check_proof s tx_id ids in
    elim (Map.get s.attestations id) [
      | none ↦ err invalid_admission_proof
      | some a ↦ if a.tx_id == tx_id then rest else err invalid_admission_proof
    ]

-- `{ ...candidate, state, ...(reason === undefined ? {} : { stateReason }), proofAttestationIds }`
unfoldable pub with_state :
    StoredCandidate → CandidateState → List Bytes → Option String → StoredCandidate
with_state candidate state proof reason = record candidate {
  state = state;
  state_reason = elim reason [ none ↦ candidate.state_reason | some r ↦ some r ];
  proof_attestation_ids = proof;
}

-- The part of `setCandidateState` behind its checks.
unfoldable pub change_state :
    StoredCandidate
    → CandidateState
    → List Bytes
    → Option String
    → Bytes
    → ControlStore
    → Result (List ControlStoreDelta) × ControlStore
unfolding with_state append_delta
change_state candidate state proof reason tx_id s =
    let next = with_state candidate state proof reason in
    let (delta, s') =
      append_delta (candidate_state_changed next.tx_id candidate.state state reason)
        (record s { candidates = Map.set s.candidates tx_id next }) in
    finish_order (not (is_admissible candidate.state) && is_admissible state) next delta s'

unfoldable pub set_candidate_state :
    Bytes
    → CandidateState
    → Option (List Bytes)
    → Option String
    → ControlStore
    → Result (List ControlStoreDelta) × ControlStore
unfolding required_candidate
set_candidate_state tx_id state proof_ids reason s = elim (required_candidate s tx_id) [
  | err e ↦ (err e, s)
  | ok candidate ↦
      let proof : List Bytes = elim proof_ids [
        | none ↦ candidate.proof_attestation_ids
        | some ids ↦ ids
      ] in
      let checks : Result (Unit {0}) = (do
        validate_state_transition candidate.state state
        check_proof s tx_id proof) in
      elim checks [
        | err e ↦ (err e, s)
        | ok _ ↦
            if same_state candidate.state state
              && same_bytes_list candidate.proof_attestation_ids proof
              && candidate.state_reason == reason
            then (ok [], s)
            else change_state candidate state proof reason tx_id s
      ]
]

-- The caller's function; it may throw.
abbrev pub AdmissionEvaluator : Type 0
AdmissionEvaluator = StoredCandidate → List StoredAttestation → Result AdmissionEvaluation

unfoldable pub evaluate_admission :
    Bytes → AdmissionEvaluator → ControlStore → Result AdmissionEvaluation × ControlStore
unfolding required_candidate
evaluate_admission tx_id evaluator s = elim (required_candidate s tx_id) [
  | err e ↦ (err e, s)
  | ok candidate ↦
      if is_admissible candidate.state
      then (
        ok (record {
          state = admissible;
          proof_attestation_ids = some candidate.proof_attestation_ids;
          reason = none;
        }),
        s,
      )
      else if is_terminal_invalid candidate.state || is_waiting candidate.state
      then (err candidate_not_admission_eligible, s)
      else elim (evaluator candidate (attestations_for s tx_id)) [
        | err e ↦ (err e, s)
        | ok evaluation ↦
            let (r, s') =
              set_candidate_state tx_id evaluation.state evaluation.proof_attestation_ids
                evaluation.reason s in
            (elim r [ ok _ ↦ ok evaluation | err e ↦ err e ], s')
      ]
]
