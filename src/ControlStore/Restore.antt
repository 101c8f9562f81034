-- ===== src/ControlStore/Restore.antt =====
-- Opening a store over its persistence: the constructor, #restore, #verifyRestoredOrder, #reset,
-- #mergeValidatorCutoff and #listValidatorCutoffs of
-- packages/control-store/src/control-store.ts, and initializeValidatorCutoffs of
-- packages/control-store/src/persistence.ts.
pub mod Journal
pub mod Durable
use chronolog_db.Prelude.{
  ℕ, ◌+◌, Bool, true, false, not, ◌&&◌, ◌||◌, Option, none, some, List, [], ◌∷◌, ◌++◌, ltb, leb,
  is_lt, get_last?, ◌==◌, ℕ_eq, String_eq, pair_eq, HasEquality, if◌then◌else◌,
}
use chronolog_db.Prelude.Map
use chronolog_db.Prelude.Map.{Map}
use chronolog_db.Bytes.{Bytes}
use chronolog_db.Bytes.Laws.{Bytes_eq}
use chronolog_db.OrderKey.{compare_transaction_order}
use chronolog_db.ControlStore.Types.{
  StoredCandidate, StoredAttestation, ControlStoreDelta, ControlStoreSnapshot,
}
use chronolog_db.ControlStore.Result.{
  Result, ok, err, guard, StoreError, ◌>>=◌, ◌>>◌, corrupt_delta_sequence, corrupt_delta_floor,
  corrupt_order_state, corrupt_duplicate_order, corrupt_order, invalid_delta_retention,
  persistence_failure,
}
use chronolog_db.ControlStore.State.{
  Persistence, ControlStore, trim_deltas, next_fails, later_faults,
}
use chronolog_db.ControlStore.Insert.{required_candidate}
use chronolog_db.ControlStore.Candidates.{is_admissible, add_ref, has_ref}
use chronolog_db.ControlStore.Heads.{heartbeat_key}

-- The store that a constructor starts with, and that `#reset()` goes back to.
unfoldable pub empty : Persistence → ℕ → ControlStore
empty persistence maximum = record {
  persistence = persistence;
  sequence = 0;
  delta_floor = 0;
  maximum_retained_deltas = maximum;
  candidates = [];
  attestations = [];
  attestations_by_tx = [];
  heartbeats = [];
  validator_cutoffs = [];
  ordered_tx_ids = [];
  deltas = [];
  checkpoints = [];
  history_reopenings = [];
  materialized_head = none;
}

-- `for (const x of xs) map.set(key(x), value(x))`
unfoldable pub load {ℓ κ μ} :
    {X : Type ℓ} {K : Type κ} {V : Type μ} ⦃e : HasEquality K⦄
    → (X → K)
    → (X → V)
    → List X
    → Map K V
    → Map K V
load key value [] m = m
load key value (x ∷ xs) m = load key value xs (Map.set m (key x) (value x))

-- The index of the attestations by transaction.
unfoldable pub load_refs : List StoredAttestation → Map Bytes (List Bytes) → Map Bytes (List Bytes)
unfolding add_ref
load_refs [] m = m
load_refs (a ∷ attestations) m =
    load_refs attestations (Map.set m a.tx_id (add_ref a.attestation_id (Map.get m a.tx_id)))

-- The sequences of the deltas increase.
unfoldable pub check_increasing : List ControlStoreDelta → Result (Unit {0})
check_increasing [] = ok tt
check_increasing (d ∷ []) = ok tt
check_increasing (d ∷ d' ∷ ds) = do
  guard (ltb d.sequence d'.sequence) corrupt_delta_sequence
  check_increasing (d' ∷ ds)

abbrev pub first_sequence : List ControlStoreDelta → Option ℕ
first_sequence [] = none
first_sequence (d ∷ ds) = some d.sequence

abbrev pub is_nil : List ControlStoreDelta → Bool
is_nil [] = true
is_nil (d ∷ ds) = false

abbrev pub final_sequence : List ControlStoreDelta → Option ℕ
final_sequence ds = elim (get_last? ds) [ none ↦ none | some d ↦ some d.sequence ]

-- An end of the log has the sequence that the counters tell.
abbrev pub check_end : Option ℕ → ℕ → StoreError → Result (Unit {0})
check_end none expected e = ok tt
check_end (some sequence) expected e = guard (sequence == expected) e

-- The first checks of `#verifyRestoredOrder`, on the ends of the log.
unfoldable pub check_ends : ControlStore → Result (Unit {0})
check_ends s = do
  check_end (final_sequence s.deltas) s.sequence corrupt_delta_sequence
  check_end (first_sequence s.deltas) (s.delta_floor + 1) corrupt_delta_floor
  guard (not (is_nil s.deltas) || s.delta_floor == s.sequence) corrupt_delta_floor

-- `previous === null` or the previous candidate comes before this one.
abbrev pub follows : Option StoredCandidate → StoredCandidate → Bool
follows none c = true
follows (some p) c = is_lt (compare_transaction_order p.order_key c.order_key)

-- The loop over the order, with the transactions seen so far and the previous candidate.
unfoldable pub check_order :
    ControlStore → List Bytes → Option StoredCandidate → List Bytes → Result (Unit {0})
unfolding required_candidate has_ref
check_order s seen previous [] = ok tt
check_order s seen previous (id ∷ ids) = elim (required_candidate s id) [
  | err e ↦ err e
  | ok c ↦
      let rest = check_order s (id ∷ seen) (some c) ids in
      do
        guard (is_admissible c.state) corrupt_order_state
        guard (not (has_ref seen id)) corrupt_duplicate_order
        guard (follows previous c) corrupt_order
        rest
]

unfoldable pub verify_restored_order : ControlStore → Result (Unit {0})
unfolding check_ends check_increasing check_order
verify_restored_order s = do
  check_ends s
  check_increasing s.deltas
  check_order s [] none s.ordered_tx_ids

-- The fields that `#restore` fills, before it verifies them.
unfoldable pub fill : ControlStoreSnapshot → ControlStore → ControlStore
unfolding load load_refs trim_deltas
fill image s = trim_deltas (record s {
  sequence = image.sequence;
  delta_floor = elim image.delta_floor [ none ↦ 0 | some floor ↦ floor ];
  candidates = load (λ c. c.tx_id) (λ c. c) image.candidates s.candidates;
  attestations = load (λ a. a.attestation_id) (λ a. a) image.attestations s.attestations;
  attestations_by_tx = load_refs image.attestations s.attestations_by_tx;
  heartbeats = load heartbeat_key (λ h. h) image.heartbeats s.heartbeats;
  validator_cutoffs = elim image.validator_cutoffs [
    | none ↦ s.validator_cutoffs
    | some cutoffs ↦
        load (λ c. c.validator_id) (λ c. c.accepted_above_ms) cutoffs s.validator_cutoffs
  ];
  ordered_tx_ids = s.ordered_tx_ids ++ image.ordered_tx_ids;
  deltas = s.deltas ++ image.deltas;
  checkpoints = load (λ c. c.prefix_length) (λ c. c) image.checkpoints s.checkpoints;
  history_reopenings = load (λ r. r.id) (λ r. r) image.history_reopenings s.history_reopenings;
  materialized_head = image.materialized_head;
})

unfoldable pub restore : ControlStoreSnapshot → ControlStore → Result ControlStore
unfolding fill verify_restored_order
restore image s = let s' = fill image s in do verify_restored_order s'; ok s'

-- `previous === undefined || cutoff > previous`
abbrev pub is_above : Option ℕ → ℕ → Bool
is_above none cutoff = true
is_above (some previous) cutoff = ltb previous cutoff

-- `#mergeValidatorCutoff`
unfoldable pub merge_cutoff : Bytes → ℕ → Map Bytes ℕ → Map Bytes ℕ
merge_cutoff validator_id cutoff cutoffs =
    if is_above (Map.get cutoffs validator_id) cutoff
    then Map.set cutoffs validator_id cutoff
    else cutoffs

-- The loop that merges each of a list of cutoffs.
unfoldable pub merge_cutoffs : Map Bytes ℕ → Map Bytes ℕ → Map Bytes ℕ
unfolding merge_cutoff
merge_cutoffs [] cutoffs = cutoffs
merge_cutoffs ((id, cutoff) ∷ more) cutoffs = merge_cutoffs more (merge_cutoff id cutoff cutoffs)

-- Whether some cutoff is above what the journal has.
unfoldable pub raises : Map Bytes ℕ → Map Bytes ℕ → Bool
unfolding merge_cutoff
raises [] cutoffs = false
raises ((id, cutoff) ∷ more) cutoffs =
    is_above (Map.get cutoffs id) cutoff || raises more (merge_cutoff id cutoff cutoffs)

-- `initializeValidatorCutoffs`: the journal is raised to the cutoffs of the store, and written if
-- that changes it or if it has no file yet.
unfoldable pub initialize_cutoffs : Map Bytes ℕ → Persistence → Result Persistence
unfolding merge_cutoffs raises
initialize_cutoffs cutoffs p =
    if p.journal_exists && not (raises cutoffs p.cutoffs)
    then ok p
    else if next_fails p.faults
    then err persistence_failure
    else ok (record p {
      faults = later_faults p.faults;
      journal_exists = true;
      cutoffs = merge_cutoffs cutoffs p.cutoffs;
    })

-- The snapshot is restored; a corrupt one is put aside if the persistence can do that. The flush of a
-- pending snapshot with which `load` begins is left out.
unfoldable pub load_snapshot : Persistence → ℕ → Result ControlStore
unfolding restore empty
load_snapshot p maximum = elim (if p.attached then p.saved else none) [
  | none ↦ ok (empty p maximum)
  | some image ↦ elim (restore image (empty p maximum)) [
    | ok s ↦ ok s
    | err e ↦
        if p.quarantines && p.journal_exists
        then ok (empty (record p { saved = none }) maximum)
        else err e
  ]
]

-- The end of the constructor: the journal's cutoffs, which were read before the snapshot, are merged
-- into the store's, and the journal is initialised with the result.
unfoldable pub merge_journal : Map Bytes ℕ → ControlStore → Result ControlStore
unfolding merge_cutoffs initialize_cutoffs
merge_journal journal s =
    let merged = merge_cutoffs journal s.validator_cutoffs in
    do
      p ← initialize_cutoffs merged s.persistence
      ok (record s { validator_cutoffs = merged; persistence = p })

-- The constructor.
unfoldable pub open_store : Persistence → ℕ → Result ControlStore
unfolding load_snapshot merge_journal
open_store p maximum = do
  guard (leb 1 maximum) invalid_delta_retention
  s ← load_snapshot p maximum
  if p.attached && p.journals then merge_journal p.cutoffs s else ok s
