-- ===== src/ControlStore/Commands.antt =====
-- The public methods of packages/control-store/src/control-store.ts that change the store, as
-- commands, and sequences of them. A caller that catches an error goes on from the state that the
-- method left.
pub mod Effect
pub mod Invariant
pub mod Progress
pub mod Monotone
pub mod Agreement
use chronolog_db.Prelude.{ℕ, Option, List, [], ◌∷◌, String}
use chronolog_db.Bytes.{Bytes}
use chronolog_db.ControlStore.Types.{
  CandidateState, PutCandidateInput, StoredAttestation, ValidatorHeartbeat, MaterializedHead,
  StoredCheckpoint, HistoryReopening,
}
use chronolog_db.ControlStore.State.{ControlStore, flush}
use chronolog_db.ControlStore.Candidates.{put_candidate, put_attestation}
use chronolog_db.ControlStore.Transitions.{
  AdmissionEvaluator, set_candidate_state, evaluate_admission,
}
use chronolog_db.ControlStore.Heads.{
  record_heartbeat, persist_validator_cutoff, publish_materialized_head, put_checkpoint,
  record_history_reopening,
}

pub data Command : Type 0 where
  candidate : PutCandidateInput → Command
  attestation : StoredAttestation → Command
  change : Bytes → CandidateState → Option (List Bytes) → Option String → Command
  evaluate : Bytes → AdmissionEvaluator → Command
  heartbeat : ValidatorHeartbeat → Command
  cutoff : Bytes → ℕ → Command
  head : MaterializedHead → Command
  checkpoint : StoredCheckpoint → Command
  reopening : HistoryReopening → Command
  flushed : Command

unfoldable pub step : Command → ControlStore → ControlStore
step (candidate input) s = (put_candidate input s).1
step (attestation a) s = (put_attestation a s).1
step (change id state proof reason) s = (set_candidate_state id state proof reason s).1
step (evaluate id evaluator) s = (evaluate_admission id evaluator s).1
step (heartbeat h) s = (record_heartbeat h s).1
step (cutoff id ms) s = (persist_validator_cutoff id ms s).1
step (head h) s = (publish_materialized_head h s).1
step (checkpoint c) s = (put_checkpoint c s).1
step (reopening r) s = (record_history_reopening r s).1
step flushed s = (flush s).1

unfoldable pub run : List Command → ControlStore → ControlStore
unfolding step
run [] s = s
run (c ∷ cs) s = run cs (step c s)
