-- ===== src/ControlStore/Tests.antt =====
-- Runs of the control store's model at concrete inputs.
mod Queries
mod Restart
use chronolog_db.Prelude.{
  ℕ, ◌≡◌, refl, ap, Bool, true, false, Option, none, some, List, [], ◌∷◌, arith, option_beq,
}
use chronolog_db.Prelude.Map
use chronolog_db.Prelude.Map.{Map}
use chronolog_db.Bytes.{Bytes, bytes_equal, every_equal}
use chronolog_db.Bytes.Laws.{Bytes_eq, bytes_equal_iff}
use chronolog_db.OrderKey.{TransactionOrderKey, compare_transaction_order}
use chronolog_db.ControlStore.Types.{
  PutCandidateInput, StoredCandidate, admissible, ValidatorHeartbeat,
}
use chronolog_db.ControlStore.State.{Persistence, ControlStore}
use chronolog_db.ControlStore.Order.{OrderIsValid}
use chronolog_db.ControlStore.Log.{IsLogged}
use chronolog_db.ControlStore.Restore.{empty}
use chronolog_db.ControlStore.Candidates.{put_candidate, finish_order, is_admissible}
use chronolog_db.ControlStore.Insert.{insert_order}
use chronolog_db.ControlStore.Heads.{record_heartbeat, persist_validator_cutoff}
use chronolog_db.ControlStore.Commands.{Command, candidate, heartbeat, cutoff, run, step}
use chronolog_db.ControlStore.Commands.Invariant.{
  run-IsOrdered, empty-IsOrdered, run-IsLogged, empty-IsLogged,
}
use chronolog_db.ControlStore.Commands.Agreement.{run-agrees}

abbrev memory : Persistence
memory = record {
  attached = false;
  coalesces = false;
  journals = false;
  faults = [];
  saved = none;
  save_requested = false;
  quarantines = false;
  journal_exists = false;
  cutoffs = [];
}

abbrev input : Bytes → ℕ → PutCandidateInput
input id ms = record {
  tx_id = id;
  group_id = 9 ∷ [];
  candidate_digest = 8 ∷ [];
  validation_policy = 7 ∷ [];
  order_key = record {
    author_timestamp_ms = ms;
    author_id = 1 ∷ [];
    author_feed_sequence = 0;
    tx_id = id;
  };
  canonical_payload = some (4 ∷ []);
  state = admissible;
  state_reason = none;
  proof_attestation_ids = none;
}

abbrev stored : Bytes → ℕ → StoredCandidate
stored id ms = record {
  tx_id = id;
  group_id = 9 ∷ [];
  candidate_digest = 8 ∷ [];
  validation_policy = 7 ∷ [];
  order_key = record {
    author_timestamp_ms = ms;
    author_id = 1 ∷ [];
    author_feed_sequence = 0;
    tx_id = id;
  };
  canonical_payload = some (4 ∷ []);
  state = admissible;
  state_reason = none;
  proof_attestation_ids = [];
}

abbrev beat_of : Bytes → ℕ → ℕ → ValidatorHeartbeat
beat_of id feed ms = record {
  heartbeat_id = id;
  validator_id = id;
  validator_capability = 5 ∷ [];
  membership_revision = 6 ∷ [];
  validator_feed_sequence = feed;
  acceptance_cutoff_ms = ms;
  feed_contiguous = true;
}

abbrev commands : List Command
commands =
    candidate (input (1 ∷ []) 20)
    ∷ candidate (input (2 ∷ []) 10)
    ∷ heartbeat (beat_of (3 ∷ []) 1 5)
    ∷ cutoff (3 ∷ []) 5
    ∷ []

abbrev reversed : List Command
reversed = candidate (input (2 ∷ []) 10) ∷ candidate (input (1 ∷ []) 20) ∷ []

abbrev start : ControlStore
start = empty memory 2

run-IsOrdered_example :
    OrderIsValid (run commands start).candidates (run commands start).ordered_tx_ids
run-IsOrdered_example =
    run-IsOrdered commands start (refl, (refl, (tt, (tt, tt)))) (empty-IsOrdered memory 2)

run-IsLogged_example : IsLogged (run commands start)
run-IsLogged_example = run-IsLogged commands start (empty-IsLogged memory 2 (omega arith))

abbrev admits : Option StoredCandidate → Bool
admits none = false
admits (some c) = is_admissible c.state

abbrev key : Option StoredCandidate → Option TransactionOrderKey
key none = none
key (some c) = some c.order_key

-- The two orders of arrival store the same candidates.
candidates_commands :
    (run commands start).candidates
    ≡ (1 ∷ [], stored (1 ∷ []) 20) ∷ (2 ∷ [], stored (2 ∷ []) 10) ∷ []
unfolding run step empty Map.get Map.set bytes_equal every_equal put_candidate record_heartbeat
    persist_validator_cutoff finish_order insert_order compare_transaction_order option_beq
candidates_commands = refl

candidates_reversed :
    (run reversed start).candidates
    ≡ (2 ∷ [], stored (2 ∷ []) 10) ∷ (1 ∷ [], stored (1 ∷ []) 20) ∷ []
unfolding run step empty Map.get Map.set bytes_equal every_equal put_candidate finish_order
    insert_order compare_transaction_order option_beq
candidates_reversed = refl

swapped :
    (id : Bytes)
    → Map.get (run commands start).candidates id ≡ Map.get (run reversed start).candidates id
unfolding Map.get
swapped id =
    rw (candidates_commands, candidates_reversed)
      (ground (arith, bytes_equal_iff (1 ∷ []) id, bytes_equal_iff (2 ∷ []) id))

run-agrees_example : (run commands start).ordered_tx_ids ≡ (run reversed start).ordered_tx_ids
run-agrees_example =
    run-agrees memory memory 2 2 commands reversed (refl, (refl, (tt, (tt, tt)))) (refl, (refl, tt))
      (λ id. ap admits (swapped id)) (λ id h. ap key (swapped id))
