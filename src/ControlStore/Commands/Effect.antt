-- ===== src/ControlStore/Commands/Effect.antt =====
-- What a command can do to a store, as a relation between the state before and the state after; it
-- holds of the state that a method leaves when it returns and of the one when it throws.
use chronolog_db.Prelude.{
  ℕ, ◌≤◌, ◌<◌, ◌≡◌, refl, ◌∙◌, false, not, ◌⊎◌, inl, inr, Option, none, some, List, arith, String,
  length, ℕ_eq, String_eq, Option_eq, pair_eq, Option-cases,
}
use chronolog_db.Prelude.Map
use chronolog_db.Prelude.Map.{Map}
use chronolog_db.Bytes.{Bytes}
use chronolog_db.Bytes.Laws.{Bytes_eq}
use chronolog_db.ControlStore.Types.{
  CandidateState, StoredCandidate, PutCandidateInput, StoredAttestation, ValidatorHeartbeat,
  MaterializedHead, StoredCheckpoint, HistoryReopening, DeltaEvent, attestation_added,
  heartbeat_advanced, materialized_head_published, checkpoint_stored, history_reopened,
}
use chronolog_db.ControlStore.Result.{ok}
use chronolog_db.ControlStore.State.{Persistence, ControlStore, append_delta, persist, flush}
use chronolog_db.ControlStore.Candidates.{
  put_candidate, add_ref, put_attestation, validate_state_transition,
}
use chronolog_db.ControlStore.Transitions.{
  AdmissionEvaluator, change_state, set_candidate_state, evaluate_admission,
}
use chronolog_db.ControlStore.Heads.{
  heartbeat_key, store_heartbeat, record_heartbeat, regresses, journal_cutoff, snapshot_cutoff,
  persist_validator_cutoff, store_head, publish_materialized_head, put_checkpoint,
  record_history_reopening, restore_cutoff,
}
use chronolog_db.ControlStore.Order.Methods.{set_candidate_state-cases, evaluate_admission-cases}
use chronolog_db.ControlStore.Commands.{
  Command, candidate, attestation, change, evaluate, heartbeat, cutoff, head, checkpoint, reopening,
  flushed, step,
}

-- A delta is appended, and the store is persisted.
unfoldable pub settled : DeltaEvent → ControlStore → ControlStore
unfolding append_delta persist
settled event s = (persist (append_delta event s).1).1

-- The heartbeat is newer than the stored one of its validator and revision, if there is one.
abbrev pub Advances : Option ValidatorHeartbeat → ValidatorHeartbeat → Type 0
Advances none h = Unit {0}
Advances (some previous) h =
    (previous.validator_feed_sequence < h.validator_feed_sequence)
    × (previous.acceptance_cutoff_ms ≤ h.acceptance_cutoff_ms)

abbrev pub HeadAdvances : Option MaterializedHead → MaterializedHead → Type 0
HeadAdvances none h = Unit {0}
HeadAdvances (some current) h = current.local_revision < h.local_revision

-- `Q` is what is known of the inputs of new candidates.
pub data Effect (Q : PutCandidateInput → Type 0) (s t : ControlStore) : Type 0 where
  unchanged : t ≡ s → Effect Q s t
  persisted : (p : Persistence) → t ≡ record s { persistence = p } → Effect Q s t
  cut :
      (id : Bytes) (ms : ℕ) (p : Persistence)
      → regresses (Map.get s.validator_cutoffs id) ms ≡ false
      → t ≡ record s { persistence = p; validator_cutoffs = Map.set s.validator_cutoffs id ms }
      → Effect Q s t
  attested :
      (a : StoredAttestation) (event : DeltaEvent)
      → Map.get s.attestations a.attestation_id ≡ none
      → t
        ≡ settled event (record s {
          attestations = Map.set s.attestations a.attestation_id a;
          attestations_by_tx =
              Map.set s.attestations_by_tx a.tx_id
                (add_ref a.attestation_id (Map.get s.attestations_by_tx a.tx_id));
        })
      → Effect Q s t
  beat :
      (h : ValidatorHeartbeat) (event : DeltaEvent)
      → Advances (Map.get s.heartbeats (heartbeat_key h)) h
      → t ≡ settled event (record s { heartbeats = Map.set s.heartbeats (heartbeat_key h) h })
      → Effect Q s t
  published :
      (h : MaterializedHead) (event : DeltaEvent)
      → HeadAdvances s.materialized_head h
      → h.order_length ≤ length s.ordered_tx_ids
      → t ≡ settled event (record s { materialized_head = some h })
      → Effect Q s t
  checked :
      (c : StoredCheckpoint) (event : DeltaEvent)
      → c.prefix_length ≤ length s.ordered_tx_ids
      → t ≡ settled event (record s { checkpoints = Map.set s.checkpoints c.prefix_length c })
      → Effect Q s t
  reopened :
      (r : HistoryReopening) (event : DeltaEvent)
      → Map.get s.history_reopenings r.id ≡ none
      → t ≡ settled event (record s { history_reopenings = Map.set s.history_reopenings r.id r })
      → Effect Q s t
  added :
      (input : PutCandidateInput)
      → Q input
      → Map.get s.candidates input.tx_id ≡ none
      → t ≡ (put_candidate input s).1
      → Effect Q s t
  changed :
      (c : StoredCandidate) (state : CandidateState) (proof : List Bytes) (reason : Option String)
      (id : Bytes)
      → Map.get s.candidates id ≡ some c
      → validate_state_transition c.state state ≡ ok tt
      → t ≡ (change_state c state proof reason id s).1
      → Effect Q s t

put_candidate-Effect :
    {Q : PutCandidateInput → Type 0} (input : PutCandidateInput) (s : ControlStore)
    → Q input
    → Effect Q s (put_candidate input s).1
put_candidate-Effect input s q = elim (Option-cases (Map.get s.candidates input.tx_id)) [
  | inl e ↦ added input q e refl
  | inr (c, e) ↦ unchanged (unfold put_candidate in ground arith)
]

put_attestation-Effect :
    {Q : PutCandidateInput → Type 0} (a : StoredAttestation) (s : ControlStore)
    → Effect Q s (put_attestation a s).1
put_attestation-Effect a s = elim (Option-cases (Map.get s.attestations a.attestation_id)) [
  | inl e ↦
      attested a (attestation_added a.attestation_id a.tx_id (not (Map.has s.candidates a.tx_id))) e
        (unfold put_attestation settled in rw (e, put_attestation) refl)
  | inr (c, e) ↦ unchanged (unfold put_attestation in ground arith)
]

set_candidate_state-Effect :
    {Q : PutCandidateInput → Type 0} (id : Bytes) (state : CandidateState)
    (proof : Option (List Bytes)) (reason : Option String) (s : ControlStore)
    → Effect Q s (set_candidate_state id state proof reason s).1
set_candidate_state-Effect id state proof reason s =
    elim (set_candidate_state-cases id state proof reason s) [
      | inl e ↦ unchanged e
      | inr (c, ids, e, allowed, result) ↦ changed c state ids reason id e allowed result
    ]

evaluate_admission-Effect :
    {Q : PutCandidateInput → Type 0} (id : Bytes) (evaluator : AdmissionEvaluator)
    (s : ControlStore)
    → Effect Q s (evaluate_admission id evaluator s).1
evaluate_admission-Effect id evaluator s = elim (evaluate_admission-cases id evaluator s) [
  | inl e ↦ unchanged e
  | inr (state, proof, reason, e) ↦ rw e (set_candidate_state-Effect id state proof reason s)
]

store_heartbeat-settled :
    (h : ValidatorHeartbeat) (s : ControlStore)
    → (store_heartbeat h s).1
      ≡ settled
          (heartbeat_advanced h.heartbeat_id h.validator_id h.acceptance_cutoff_ms
            h.feed_contiguous)
          (record s { heartbeats = Map.set s.heartbeats (heartbeat_key h) h })
unfolding store_heartbeat settled
store_heartbeat-settled h s = refl

-- `recordHeartbeat` leaves the store as it is unless the heartbeat is new or Advances.
record_heartbeat-cases :
    (h : ValidatorHeartbeat) (s : ControlStore)
    → ((record_heartbeat h s).1 ≡ s)
      ⊎ (Advances (Map.get s.heartbeats (heartbeat_key h)) h
          × ((record_heartbeat h s).1 ≡ (store_heartbeat h s).1))
unfolding record_heartbeat
record_heartbeat-cases h s = ground arith

record_heartbeat-Effect :
    {Q : PutCandidateInput → Type 0} (h : ValidatorHeartbeat) (s : ControlStore)
    → Effect Q s (record_heartbeat h s).1
record_heartbeat-Effect h s = elim (record_heartbeat-cases h s) [
  | inl e ↦ unchanged e
  | inr (newer, e) ↦ beat h _ newer (e ∙ store_heartbeat-settled h s)
]

publish-cases :
    (h : MaterializedHead) (s : ControlStore)
    → ((publish_materialized_head h s).1 ≡ s)
      ⊎ (HeadAdvances s.materialized_head h
          × (h.order_length ≤ length s.ordered_tx_ids)
          × ((publish_materialized_head h s).1
              ≡ settled (materialized_head_published h) (record s { materialized_head = some h })))
publish-cases h s = unfold publish_materialized_head store_head settled in ground arith

put_checkpoint-cases :
    (c : StoredCheckpoint) (s : ControlStore)
    → ((put_checkpoint c s).1 ≡ s)
      ⊎ ((c.prefix_length ≤ length s.ordered_tx_ids)
          × ((put_checkpoint c s).1
              ≡ settled
                  (checkpoint_stored c)
                  (record s { checkpoints = Map.set s.checkpoints c.prefix_length c })))
put_checkpoint-cases c s = unfold put_checkpoint settled in ground arith

reopening-cases :
    (r : HistoryReopening) (s : ControlStore)
    → ((record_history_reopening r s).1 ≡ s)
      ⊎ ((Map.get s.history_reopenings r.id ≡ none)
          × ((record_history_reopening r s).1
              ≡ settled
                  (history_reopened r)
                  (record s { history_reopenings = Map.set s.history_reopenings r.id r })))
reopening-cases r s = unfold record_history_reopening settled in ground arith

flush-persistence :
    (s : ControlStore) → (flush s).1 ≡ record s { persistence = (flush s).1.persistence }
unfolding flush
flush-persistence s = ground arith

-- The `catch` of `persistValidatorCutoff` takes the write to the map back.
pub restore_cutoff-set :
    (m : Map Bytes ℕ) (id : Bytes) (ms : ℕ) → restore_cutoff (Map.get m id) id (Map.set m id ms) ≡ m
unfolding restore_cutoff
restore_cutoff-set m id ms = elim (Option-cases (Map.get m id)) [
  | inl e ↦ rw (e, restore_cutoff) (Map.delete-set m id ms e)
  | inr (v, e) ↦ rw (e, restore_cutoff) (Map.set-set m id ms v e)
]

module _ (id : Bytes) (ms : ℕ) (s : ControlStore) where
  snapshot_cutoff-cases :
      let t = (snapshot_cutoff id ms s).1 in
      (t ≡ record s { persistence = t.persistence })
      ⊎ (t ≡ record s {
        persistence = t.persistence;
        validator_cutoffs = Map.set s.validator_cutoffs id ms;
      })
  unfolding snapshot_cutoff
  snapshot_cutoff-cases = ground (arith, restore_cutoff-set s.validator_cutoffs id ms)

  persist_validator_cutoff-cases :
      let t = (persist_validator_cutoff id ms s).1 in
      (t ≡ s)
      ⊎ ((t ≡ record s { persistence = t.persistence })
          ⊎ ((regresses (Map.get s.validator_cutoffs id) ms ≡ false)
              × (t ≡ record s {
                persistence = t.persistence;
                validator_cutoffs = Map.set s.validator_cutoffs id ms;
              })))
  persist_validator_cutoff-cases =
      let c = snapshot_cutoff-cases in
      unfold persist_validator_cutoff journal_cutoff in ground arith

  persist_validator_cutoff-Effect :
      {Q : PutCandidateInput → Type 0} → Effect Q s (persist_validator_cutoff id ms s).1
  persist_validator_cutoff-Effect = elim persist_validator_cutoff-cases [
    | inl e ↦ unchanged e
    | inr (inl e) ↦ persisted _ e
    | inr (inr (grows, e)) ↦ cut id ms _ grows e
  ]

-- The input of the command that puts a candidate; no other command has one.
abbrev pub IsInputOf : Command → PutCandidateInput → Type 0
IsInputOf (candidate input) i = i ≡ input
IsInputOf _ i = ⊥

-- Every command, whether its method returns or throws, has one of the effects of the relation.
pub step-Effect : (c : Command) (s : ControlStore) → Effect (IsInputOf c) s (step c s)
unfolding step
step-Effect (candidate input) s = put_candidate-Effect input s refl
step-Effect (attestation a) s = put_attestation-Effect a s
step-Effect (change id state proof reason) s = set_candidate_state-Effect id state proof reason s
step-Effect (evaluate id evaluator) s = evaluate_admission-Effect id evaluator s
step-Effect (heartbeat h) s = record_heartbeat-Effect h s
step-Effect (cutoff id ms) s = persist_validator_cutoff-Effect id ms s
step-Effect (head h) s = elim (publish-cases h s) [
  | inl e ↦ unchanged e
  | inr (newer, fits, e) ↦ published h _ newer fits e
]
step-Effect (checkpoint c) s = elim (put_checkpoint-cases c s) [
  | inl e ↦ unchanged e
  | inr (fits, e) ↦ checked c _ fits e
]
step-Effect (reopening r) s = elim (reopening-cases r s) [
  | inl e ↦ unchanged e
  | inr (new, e) ↦ reopened r _ new e
]
step-Effect flushed s = persisted _ (flush-persistence s)
