-- ===== src/ControlStore/Heads.antt =====
-- Heartbeats, the validators' cutoffs, the materialized head, checkpoints and history reopenings:
-- recordHeartbeat, validatorCutoff, persistValidatorCutoff, publishMaterializedHead, putCheckpoint,
-- nearestCheckpointBefore, recordHistoryReopening and changesSince of
-- packages/control-store/src/control-store.ts, and saveValidatorCutoff of
-- packages/control-store/src/persistence.ts.
use chronolog_db.Prelude.{
  ℕ, Bool, true, false, not, ◌&&◌, Option, none, some, List, [], ◌∷◌, ltb, leb, length, ◌==◌, ℕ_eq,
  String_eq, Option_eq, pair_eq, if◌then◌else◌,
}
use chronolog_db.Prelude.Map
use chronolog_db.Prelude.Map.{Map}
use chronolog_db.Bytes.{Bytes}
use chronolog_db.Bytes.Laws.{Bytes_eq}
use chronolog_db.ControlStore.Types.{
  ValidatorHeartbeat, MaterializedHead, StoredCheckpoint, HistoryReopening, ControlStoreDelta,
  ValidatorCutoffState, heartbeat_advanced, materialized_head_published, checkpoint_stored,
  history_reopened,
}
use chronolog_db.ControlStore.Same.{same_heartbeat, same_head, same_checkpoint, same_reopening}
use chronolog_db.ControlStore.Result.{
  Result, ok, err, heartbeat_cutoff_regression, heartbeat_conflict, validator_cutoff_regression,
  head_revision_regression, head_revision_conflict, head_ahead_of_order, invalid_checkpoint_prefix,
  pinned_checkpoint_replacement, reopening_conflict, delta_history_reset, persistence_failure,
}
use chronolog_db.ControlStore.State.{
  Persistence, ControlStore, append_delta, save, snapshot, next_fails, later_faults,
}
use chronolog_db.ControlStore.Candidates.{finish}

abbrev pub heartbeat_key : ValidatorHeartbeat → Bytes × Bytes
heartbeat_key h = (h.membership_revision, h.validator_id)

-- The write at the end of `recordHeartbeat`.
unfoldable pub store_heartbeat :
    ValidatorHeartbeat → ControlStore → Result (Option ControlStoreDelta) × ControlStore
unfolding append_delta finish
store_heartbeat next s =
    let (delta, s') =
      append_delta
        (heartbeat_advanced next.heartbeat_id next.validator_id next.acceptance_cutoff_ms
          next.feed_contiguous)
        (record s { heartbeats = Map.set s.heartbeats (heartbeat_key next) next }) in
    finish (some delta) s'

unfoldable pub record_heartbeat :
    ValidatorHeartbeat → ControlStore → Result (Option ControlStoreDelta) × ControlStore
unfolding same_heartbeat store_heartbeat
record_heartbeat heartbeat s = elim (Map.get s.heartbeats (heartbeat_key heartbeat)) [
  | none ↦ store_heartbeat heartbeat s
  | some previous ↦
      if ltb heartbeat.validator_feed_sequence previous.validator_feed_sequence
      then (ok none, s)
      else if ltb heartbeat.acceptance_cutoff_ms previous.acceptance_cutoff_ms
      then (err heartbeat_cutoff_regression, s)
      else if heartbeat.validator_feed_sequence == previous.validator_feed_sequence
      then if same_heartbeat previous heartbeat then (ok none, s) else (err heartbeat_conflict, s)
      else store_heartbeat heartbeat s
]

unfoldable pub validator_cutoff : ControlStore → Bytes → Option ℕ
validator_cutoff s validator_id = Map.get s.validator_cutoffs validator_id

-- `previous !== undefined && cutoff < previous`
abbrev pub regresses : Option ℕ → ℕ → Bool
regresses none cutoff = false
regresses (some previous) cutoff = ltb cutoff previous

-- `saveValidatorCutoff` of the persistence: a write that throws leaves the journal as it was.
unfoldable pub save_validator_cutoff :
    ValidatorCutoffState → Persistence → Result (Unit {0}) × Persistence
save_validator_cutoff cutoff p =
    let previous = Map.get p.cutoffs cutoff.validator_id in
    if regresses previous cutoff.accepted_above_ms
    then (err validator_cutoff_regression, p)
    else if previous == some cutoff.accepted_above_ms
    then (ok tt, p)
    else if next_fails p.faults
    then (err persistence_failure, record p { faults = later_faults p.faults })
    else (
      ok tt,
      record p {
        faults = later_faults p.faults;
        journal_exists = true;
        cutoffs = Map.set p.cutoffs cutoff.validator_id cutoff.accepted_above_ms;
      },
    )

-- What the `catch` restores.
unfoldable pub restore_cutoff : Option ℕ → Bytes → Map Bytes ℕ → Map Bytes ℕ
restore_cutoff none validator_id cutoffs = Map.delete cutoffs validator_id
restore_cutoff (some previous) validator_id cutoffs = Map.set cutoffs validator_id previous

-- The persistence has a journal: it is written first.
unfoldable pub journal_cutoff : Bytes → ℕ → ControlStore → Result (Unit {0}) × ControlStore
unfolding save_validator_cutoff
journal_cutoff validator_id cutoff s =
    let (r, p) =
      save_validator_cutoff (record { validator_id = validator_id; accepted_above_ms = cutoff })
        s.persistence in
    elim r [
      | err e ↦ (err e, record s { persistence = p })
      | ok _ ↦ (
        ok tt,
        record s {
          persistence = p;
          validator_cutoffs = Map.set s.validator_cutoffs validator_id cutoff;
        },
      )
    ]

-- It has none: the whole snapshot is written, and the cutoff is taken back if that throws.
unfoldable pub snapshot_cutoff : Bytes → ℕ → ControlStore → Result (Unit {0}) × ControlStore
unfolding save snapshot restore_cutoff
snapshot_cutoff validator_id cutoff s =
    let previous = Map.get s.validator_cutoffs validator_id in
    let s' = record s { validator_cutoffs = Map.set s.validator_cutoffs validator_id cutoff } in
    if not s.persistence.attached
    then (ok tt, s')
    else (let (r, p) = save (snapshot s') s.persistence in
        elim r [
          | ok _ ↦ (ok tt, record s' { persistence = p })
          | err e ↦ (
            err e,
            record s' {
              persistence = p;
              validator_cutoffs = restore_cutoff previous validator_id s'.validator_cutoffs;
            },
          )
        ])

unfoldable pub persist_validator_cutoff :
    Bytes → ℕ → ControlStore → Result (Unit {0}) × ControlStore
unfolding journal_cutoff snapshot_cutoff
persist_validator_cutoff validator_id cutoff s =
    let previous = Map.get s.validator_cutoffs validator_id in
    if regresses previous cutoff
    then (err validator_cutoff_regression, s)
    else if previous == some cutoff
    then (ok tt, s)
    else if s.persistence.attached && s.persistence.journals
    then journal_cutoff validator_id cutoff s
    else snapshot_cutoff validator_id cutoff s

-- The write at the end of `publishMaterializedHead`.
unfoldable pub store_head :
    MaterializedHead → ControlStore → Result (Option ControlStoreDelta) × ControlStore
unfolding append_delta finish
store_head head s =
    if ltb (length s.ordered_tx_ids) head.order_length
    then (err head_ahead_of_order, s)
    else (let (delta, s') =
          append_delta (materialized_head_published head)
            (record s { materialized_head = some head }) in
        finish (some delta) s')

unfoldable pub publish_materialized_head :
    MaterializedHead → ControlStore → Result (Option ControlStoreDelta) × ControlStore
unfolding same_head store_head
publish_materialized_head head s = elim s.materialized_head [
  | none ↦ store_head head s
  | some current ↦
      if ltb head.local_revision current.local_revision
      then (err head_revision_regression, s)
      else if head.local_revision == current.local_revision
      then if same_head head current then (ok none, s) else (err head_revision_conflict, s)
      else store_head head s
]

-- `previous !== undefined && sameValue(previous, checkpoint)`
unfoldable pub same_as_stored : Option StoredCheckpoint → StoredCheckpoint → Bool
unfolding same_checkpoint
same_as_stored none checkpoint = false
same_as_stored (some previous) checkpoint = same_checkpoint previous checkpoint

-- `previous?.pinned === true`
abbrev pub is_pinned : Option StoredCheckpoint → Bool
is_pinned none = false
is_pinned (some previous) = previous.pinned

unfoldable pub put_checkpoint :
    StoredCheckpoint → ControlStore → Result (Option ControlStoreDelta) × ControlStore
unfolding same_as_stored append_delta finish
put_checkpoint checkpoint s =
    let previous = Map.get s.checkpoints checkpoint.prefix_length in
    if ltb (length s.ordered_tx_ids) checkpoint.prefix_length
    then (err invalid_checkpoint_prefix, s)
    else if same_as_stored previous checkpoint
    then (ok none, s)
    else if is_pinned previous && not checkpoint.pinned
    then (err pinned_checkpoint_replacement, s)
    else (let (delta, s') =
          append_delta (checkpoint_stored checkpoint) (record s {
            checkpoints = Map.set s.checkpoints checkpoint.prefix_length checkpoint;
          }) in
        finish (some delta) s')

-- `nearest === null || checkpoint.prefixLength > nearest.prefixLength`
abbrev pub is_further : Option StoredCheckpoint → StoredCheckpoint → Bool
is_further none c = true
is_further (some nearest) c = ltb nearest.prefix_length c.prefix_length

-- The loop of `nearestCheckpointBefore` over the stored checkpoints.
unfoldable pub nearest_from :
    ℕ → Option StoredCheckpoint → List StoredCheckpoint → Option StoredCheckpoint
nearest_from order_index nearest [] = nearest
nearest_from order_index nearest (c ∷ cs) =
    nearest_from order_index
      (if leb c.prefix_length order_index && is_further nearest c then some c else nearest) cs

unfoldable pub nearest_checkpoint_before : ControlStore → ℕ → Option StoredCheckpoint
unfolding nearest_from
nearest_checkpoint_before s order_index = nearest_from order_index none (Map.values s.checkpoints)

unfoldable pub record_history_reopening :
    HistoryReopening → ControlStore → Result (Option ControlStoreDelta) × ControlStore
unfolding same_reopening append_delta finish
record_history_reopening reopening s = elim (Map.get s.history_reopenings reopening.id) [
  | some previous ↦
      if same_reopening previous reopening then (ok none, s) else (err reopening_conflict, s)
  | none ↦
      let (delta, s') =
        append_delta (history_reopened reopening)
          (record s { history_reopenings = Map.set s.history_reopenings reopening.id reopening }) in
      finish (some delta) s'
]

-- `this.#deltas.filter((delta) => delta.sequence > sequence)`
unfoldable pub deltas_after : ℕ → List ControlStoreDelta → List ControlStoreDelta
deltas_after sequence [] = []
deltas_after sequence (d ∷ ds) =
    let rest = deltas_after sequence ds in if ltb sequence d.sequence then d ∷ rest else rest

unfoldable pub changes_since : ControlStore → ℕ → Result (List ControlStoreDelta)
unfolding deltas_after
changes_since s sequence =
    if ltb sequence s.delta_floor
    then err delta_history_reset
    else ok (deltas_after sequence s.deltas)
