-- ===== src/ControlStore/Candidates.antt =====
-- Candidates and attestations: putCandidate, putAttestation, attestationsFor, orderedCandidates,
-- earliestOrderDifference and validateStateTransition of
-- packages/control-store/src/control-store.ts. A method returns its result beside the state that it
-- leaves, also when it throws.
use chronolog_db.Prelude.{
  ℕ, suc, Bool, true, false, not, ◌&&◌, ◌||◌, Option, none, some, List, [], ◌∷◌, ◌++◌, ◌==◌, ℕ_eq,
  String_eq, Option_eq, if◌then◌else◌,
}
use chronolog_db.Prelude.Map
use chronolog_db.Bytes.{Bytes, bytes_equal}
use chronolog_db.Bytes.Laws.{Bytes_eq}
use chronolog_db.ControlStore.Types.{
  CandidateState, waiting_for_payload, pending_validation, admissible, invalid_protocol,
  unauthorized, quarantined, StoredCandidate, PutCandidateInput, StoredAttestation,
  ControlStoreDelta, candidate_added, attestation_added,
}
use chronolog_db.ControlStore.Same.{same_state, same_candidate_identity, same_attestation}
use chronolog_db.ControlStore.Result.{
  Result, ok, err, ◌>>=◌, candidate_conflict, attestation_conflict, admission_not_monotonic,
  terminal_state, payload_not_verified, payload_state_regression,
}
use chronolog_db.ControlStore.State.{ControlStore, append_delta, persist}
use chronolog_db.ControlStore.Insert.{required_candidate, insert_order}

abbrev pub is_terminal_invalid : CandidateState → Bool
is_terminal_invalid invalid_protocol = true
is_terminal_invalid unauthorized = true
is_terminal_invalid quarantined = true
is_terminal_invalid _ = false

abbrev pub is_admissible : CandidateState → Bool
is_admissible admissible = true
is_admissible _ = false

abbrev pub is_waiting : CandidateState → Bool
is_waiting waiting_for_payload = true
is_waiting _ = false

abbrev pub is_pending : CandidateState → Bool
is_pending pending_validation = true
is_pending _ = false

unfoldable pub validate_state_transition : CandidateState → CandidateState → Result (Unit {0})
unfolding same_state
validate_state_transition previous next =
    if same_state previous next
    then ok tt
    else if is_admissible previous
    then err admission_not_monotonic
    else if is_terminal_invalid previous
    then err terminal_state
    else if is_waiting previous && not (is_pending next) && not (is_terminal_invalid next)
    then err payload_not_verified
    else if is_waiting next
    then err payload_state_regression
    else ok tt

-- `{ ...input, proofAttestationIds: input.proofAttestationIds ?? [] }`
unfoldable pub candidate_of_input : PutCandidateInput → StoredCandidate
candidate_of_input input = record {
  tx_id = input.tx_id;
  group_id = input.group_id;
  candidate_digest = input.candidate_digest;
  validation_policy = input.validation_policy;
  order_key = input.order_key;
  canonical_payload = input.canonical_payload;
  state = input.state;
  state_reason = input.state_reason;
  proof_attestation_ids = elim input.proof_attestation_ids [ none ↦ [] | some ids ↦ ids ];
}

-- The end of a method that has changed the store: `#persist()`, then the result.
unfoldable pub finish {ℓ} : {A : Type ℓ} → A → ControlStore → Result A × ControlStore
unfolding persist
finish a s = let (r, s') = persist s in (elim r [ ok _ ↦ ok a | err e ↦ err e ], s')

-- `if (…) deltas.push(this.#insertOrder(candidate))`, and the end of the method.
unfoldable pub finish_order :
    Bool
    → StoredCandidate
    → ControlStoreDelta
    → ControlStore
    → Result (List ControlStoreDelta) × ControlStore
unfolding finish
finish_order false candidate delta s = finish (delta ∷ []) s
finish_order true candidate delta s =
    let (inserted, s') = insert_order candidate s in
    elim inserted [ err e ↦ (err e, s') | ok d ↦ finish (delta ∷ d ∷ []) s' ]

unfoldable pub put_candidate :
    PutCandidateInput → ControlStore → Result (Bool × List ControlStoreDelta) × ControlStore
unfolding candidate_of_input append_delta
put_candidate input s =
    let candidate = candidate_of_input input in
    elim (Map.get s.candidates input.tx_id) [
      | some existing ↦
          if same_candidate_identity existing candidate
          then (ok (false, []), s)
          else (err candidate_conflict, s)
      | none ↦
          let (delta, s') =
            append_delta (candidate_added candidate.tx_id candidate.state)
              (record s { candidates = Map.set s.candidates input.tx_id candidate }) in
          let (deltas, s'') = finish_order (is_admissible candidate.state) candidate delta s' in
          (elim deltas [ ok ds ↦ ok (true, ds) | err e ↦ err e ], s'')
    ]

unfoldable pub has_ref : List Bytes → Bytes → Bool
has_ref [] key = false
has_ref (r ∷ refs) key = r == key || has_ref refs key

-- `refs.add(key)` on the set of a transaction's attestations, which is created when it is missing.
unfoldable pub add_ref : Bytes → Option (List Bytes) → List Bytes
unfolding has_ref
add_ref key none = key ∷ []
add_ref key (some refs) = if has_ref refs key then refs else refs ++ key ∷ []

unfoldable pub put_attestation :
    StoredAttestation → ControlStore → Result (Bool × Option ControlStoreDelta) × ControlStore
unfolding same_attestation add_ref append_delta finish
put_attestation attestation s = elim (Map.get s.attestations attestation.attestation_id) [
  | some existing ↦
      if same_attestation existing attestation
      then (ok (false, none), s)
      else (err attestation_conflict, s)
  | none ↦
      let refs =
        add_ref attestation.attestation_id (Map.get s.attestations_by_tx attestation.tx_id) in
      let (delta, s') =
        append_delta
          (attestation_added attestation.attestation_id attestation.tx_id
            (not (Map.has s.candidates attestation.tx_id)))
          (record s {
            attestations = Map.set s.attestations attestation.attestation_id attestation;
            attestations_by_tx = Map.set s.attestations_by_tx attestation.tx_id refs;
          }) in
      finish (true, some delta) s'
]

-- The stored attestations among the references, in their order.
unfoldable pub resolve_refs : ControlStore → List Bytes → List StoredAttestation
resolve_refs s [] = []
resolve_refs s (ref ∷ refs) =
    let rest = resolve_refs s refs in
    elim (Map.get s.attestations ref) [ none ↦ rest | some a ↦ a ∷ rest ]

unfoldable pub attestations_for : ControlStore → Bytes → List StoredAttestation
unfolding resolve_refs
attestations_for s tx_id = elim (Map.get s.attestations_by_tx tx_id) [
  | none ↦ []
  | some refs ↦ resolve_refs s refs
]

-- `orderedCandidates()`
unfoldable pub ordered_candidates : ControlStore → List Bytes → Result (List StoredCandidate)
unfolding required_candidate
ordered_candidates s [] = ok []
ordered_candidates s (id ∷ ids) =
    let rest = ordered_candidates s ids in do c ← required_candidate s id; cs ← rest; ok (c ∷ cs)

-- The first index at which the two orders differ; the shorter length if one is a proper prefix.
unfoldable pub earliest_order_difference : List Bytes → List Bytes → Option ℕ
earliest_order_difference [] [] = none
earliest_order_difference [] (y ∷ ys) = some 0
earliest_order_difference (x ∷ xs) [] = some 0
earliest_order_difference (x ∷ xs) (y ∷ ys) =
    let rest = earliest_order_difference xs ys in
    if bytes_equal x y then elim rest [ none ↦ none | some i ↦ some (suc i) ] else some 0
