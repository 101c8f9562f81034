-- ===== src/ControlStore/Tests/Queries.antt =====
-- What the control store's model answers at concrete stores.
use chronolog_db.Prelude.{
  option_beq, ℕ, ◌≡◌, ◌≢◌, ◌⊎◌, ◌≤◌, ◌+◌, refl, true, false, none, some, List, [], ◌∷◌, skip, keep,
  done, arith, get_elem?, take, length, ℕ_eq, pair_eq, pair_beq,
}
use chronolog_db.Prelude.Map
use chronolog_db.Bytes.{Bytes, bytes_equal, every_equal}
use chronolog_db.Bytes.Laws.{Bytes_eq}
use chronolog_db.ControlStore.Types.{
  SettlementEvidence, StoredCandidate, admissible, ValidatorHeartbeat, StoredCheckpoint,
  ControlStoreDelta,
}
use chronolog_db.ControlStore.Result.{ok}
use chronolog_db.ControlStore.State.{ControlStore, append_delta}
use chronolog_db.ControlStore.Restore.{empty}
use chronolog_db.ControlStore.Candidates.{
  earliest_order_difference, has_ref, put_candidate, finish_order,
}
use chronolog_db.ControlStore.Insert.{insert_order, required_candidate}
use chronolog_db.ControlStore.Settlement.{
  settlement_evidence, unresolved_attestations, reopenings_at,
}
use chronolog_db.ControlStore.Settlement.Covered.{settlement_evidence-covers}
use chronolog_db.OrderKey.{compare_transaction_order}
use chronolog_db.ControlStore.Heads.{
  nearest_checkpoint_before, changes_since, record_heartbeat, persist_validator_cutoff,
}
use chronolog_db.ControlStore.Watermark.{
  watermark, heartbeat_for, if_contiguous, threshold_watermark, alternatives_watermark,
  has_duplicate, policy_heartbeats, present, sort_by_cutoff, sort_insert, selected, at_least,
  latest_from, best_of, over_proofs, some_empty,
}
use chronolog_db.ControlStore.Watermark.Threshold.{threshold_watermark-covers}
use chronolog_db.ControlStore.Watermark.Alternatives.{alternatives_watermark-covers}
use chronolog_db.ControlStore.Log.{IsRun, changes_since-IsRun}
use chronolog_db.ControlStore.Queries.{
  earliest_order_difference-IsFirst, nearest_checkpoint_before-IsNearest,
}
use chronolog_db.ControlStore.Commands.{run, Command, heartbeat, cutoff, candidate, step}
use chronolog_db.ControlStore.Commands.Invariant.{run-IsLogged, empty-IsLogged}
use chronolog_db.ControlStore.Commands.Progress.{Persists, run-Persists}
use chronolog_db.ControlStore.Commands.Monotone.{HasLater, HasAtLeast, run-HasLater, run-HasAtLeast}
use chronolog_db.ControlStore.Tests.{memory, start, commands, input, stored, beat_of}

abbrev checkpoint_at : ℕ → StoredCheckpoint
checkpoint_at n = record {
  prefix_length = n;
  checkpoint_ref = "c";
  prefix_digest = [];
  pinned = false;
}

-- Three validators with heartbeats, and two checkpoints.
abbrev announced : ControlStore
announced = record start {
  candidates = (1 ∷ [], stored (1 ∷ []) 20) ∷ [];
  heartbeats =
      ((6 ∷ [], 1 ∷ []), beat_of (1 ∷ []) 1 10)
      ∷ ((6 ∷ [], 2 ∷ []), beat_of (2 ∷ []) 1 30)
      ∷ ((6 ∷ [], 3 ∷ []), beat_of (3 ∷ []) 1 20)
      ∷ [];
  validator_cutoffs = (3 ∷ [], 4) ∷ [];
  checkpoints = (1, checkpoint_at 1) ∷ (4, checkpoint_at 4) ∷ [];
}

abbrev validators : List Bytes
validators = (1 ∷ []) ∷ (2 ∷ []) ∷ (3 ∷ []) ∷ []

threshold_watermark-covers_example :
    (i : ℕ) × (id : Bytes) × (h : ValidatorHeartbeat) × (get_elem? ((1 ∷ []) ∷ (2 ∷ []) ∷ []) i
      ≡ some id)
    × (if_contiguous (heartbeat_for announced id none) ≡ some h)
    × (20 ≤ h.acceptance_cutoff_ms)
unfolding threshold_watermark has_duplicate has_ref policy_heartbeats heartbeat_for present
    sort_by_cutoff sort_insert selected at_least latest_from bytes_equal every_equal
threshold_watermark-covers_example =
    threshold_watermark-covers announced none "p" validators 2 20 ((1 ∷ []) ∷ (2 ∷ []) ∷ []) refl
      (keep (1 ∷ []) (keep (2 ∷ []) (skip (3 ∷ []) done))) (omega arith)

abbrev proofs : List (List Bytes)
proofs = ((1 ∷ []) ∷ (3 ∷ []) ∷ []) ∷ ((2 ∷ []) ∷ []) ∷ []

alternatives_watermark-covers_example :
    (i : ℕ) × (id : Bytes) × (h : ValidatorHeartbeat) × (get_elem? ((1 ∷ []) ∷ (3 ∷ []) ∷ []) i
      ≡ some id)
    × (if_contiguous (heartbeat_for announced id none) ≡ some h)
    × (20 ≤ h.acceptance_cutoff_ms)
unfolding alternatives_watermark over_proofs best_of some_empty heartbeat_for at_least latest_from
    bytes_equal every_equal
alternatives_watermark-covers_example =
    alternatives_watermark-covers announced none "p" proofs 20 0 ((1 ∷ []) ∷ (3 ∷ []) ∷ []) refl
      refl

earliest_order_difference-IsFirst_example :
    ((earliest_order_difference validators ((1 ∷ []) ∷ (3 ∷ []) ∷ []) ≡ none)
      × (validators ≡ (1 ∷ []) ∷ (3 ∷ []) ∷ []))
    ⊎ ((i : ℕ) × (earliest_order_difference validators ((1 ∷ []) ∷ (3 ∷ []) ∷ []) ≡ some i)
        × (take i validators ≡ take i ((1 ∷ []) ∷ (3 ∷ []) ∷ []))
        × (get_elem? validators i ≢ get_elem? ((1 ∷ []) ∷ (3 ∷ []) ∷ []) i))
earliest_order_difference-IsFirst_example =
    earliest_order_difference-IsFirst validators ((1 ∷ []) ∷ (3 ∷ []) ∷ [])

nearest_checkpoint_before-IsNearest_example :
    (n : StoredCheckpoint) × (nearest_checkpoint_before announced 3 ≡ some n)
    × (n.prefix_length ≤ 3)
    × (1 ≤ n.prefix_length)
nearest_checkpoint_before-IsNearest_example =
    nearest_checkpoint_before-IsNearest announced 3 0 (checkpoint_at 1) refl (omega arith)

abbrev two_beats : List Command
two_beats =
    heartbeat (beat_of (1 ∷ []) 2 40) ∷ cutoff (3 ∷ []) 9 ∷ candidate (input (1 ∷ []) 20) ∷ []

-- Five deltas were appended and two are retained.
numbers_commands : ((run commands start).delta_floor ≡ 3) × ((run commands start).sequence ≡ 5)
unfolding run step empty Map.get Map.set bytes_equal every_equal put_candidate record_heartbeat
    persist_validator_cutoff finish_order insert_order compare_transaction_order option_beq
    append_delta pair_beq
numbers_commands = (refl, refl)

changes_since-IsRun_example :
    (ds : List ControlStoreDelta) × (changes_since (run commands start) 4 ≡ ok ds)
    × IsRun 4 ds
    × (4 + length ds ≡ (run commands start).sequence)
changes_since-IsRun_example =
    changes_since-IsRun (run commands start) 4
      (run-IsLogged commands start (empty-IsLogged memory 2 (omega arith)))
      (omega (arith, numbers_commands)) (omega (arith, numbers_commands))

run-Persists_example : Persists (run two_beats announced).candidates (1 ∷ []) (stored (1 ∷ []) 20)
unfolding Map.get bytes_equal every_equal
run-Persists_example = run-Persists two_beats announced (1 ∷ []) (stored (1 ∷ []) 20) refl

run-HasLater_example :
    HasLater (run two_beats announced).heartbeats (6 ∷ [], 1 ∷ []) (beat_of (1 ∷ []) 1 10)
unfolding Map.get bytes_equal every_equal pair_beq
run-HasLater_example =
    run-HasLater two_beats announced (6 ∷ [], 1 ∷ []) (beat_of (1 ∷ []) 1 10) refl

run-HasAtLeast_example : HasAtLeast (run two_beats announced).validator_cutoffs (3 ∷ []) 4
unfolding Map.get bytes_equal every_equal
run-HasAtLeast_example = run-HasAtLeast two_beats announced (3 ∷ []) 4 refl

abbrev settled : SettlementEvidence
settled = record {
  tx_id = 1 ∷ [];
  candidate_state = admissible;
  order_key = (stored (1 ∷ []) 20).order_key;
  proof_attestation_ids = [];
  watermark = threshold_watermark announced none "p" validators 2;
  below_watermark = true;
  unresolved_attestation_ids = [];
  history_reopening_ids = [];
}

settlement_evidence-covers_example :
    (c : StoredCandidate) × (i : ℕ) × (id : Bytes) × (h : ValidatorHeartbeat) × (Map.get
        announced.candidates
        (1 ∷ [])
      ≡ some c)
    × (get_elem? ((1 ∷ []) ∷ (2 ∷ []) ∷ []) i ≡ some id)
    × (if_contiguous (heartbeat_for announced id none) ≡ some h)
    × (c.order_key.author_timestamp_ms ≤ h.acceptance_cutoff_ms)
unfolding settlement_evidence required_candidate watermark unresolved_attestations reopenings_at
    Map.get threshold_watermark has_duplicate has_ref policy_heartbeats heartbeat_for present
    sort_by_cutoff sort_insert selected at_least latest_from bytes_equal every_equal empty
settlement_evidence-covers_example =
    settlement_evidence-covers (λ texts. texts) announced (1 ∷ []) "p" validators 2 none settled
      ((1 ∷ []) ∷ (2 ∷ []) ∷ []) refl refl (keep (1 ∷ []) (keep (2 ∷ []) (skip (3 ∷ []) done)))
      (omega arith)
