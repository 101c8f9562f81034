-- ===== src/ControlStore/State.antt =====
-- The fields of the class `ControlStore` of packages/control-store/src/control-store.ts, what it
-- writes to its persistence, and the change log. A key `idKey(bytes)` is a base64url text, which
-- determines the bytes, so the maps here are keyed by the bytes themselves.
use chronolog_db.Prelude.{
  ℕ, ◌+◌, ◌-◌, Bool, true, false, ◌&&◌, Option, none, some, List, [], ◌∷◌, ◌++◌, map, String,
  length, take, drop, get_last?, ℕ_eq, Option_eq, if◌then◌else◌,
}
use chronolog_db.Prelude.Map.{Map, values}
use chronolog_db.Bytes.{Bytes}
use chronolog_db.Bytes.Laws.{Bytes_eq}
use chronolog_db.ControlStore.Types.{
  StoredCandidate, StoredAttestation, ValidatorHeartbeat, ControlStoreDelta, DeltaEvent,
  StoredCheckpoint, HistoryReopening, MaterializedHead, ControlStoreSnapshot,
}
use chronolog_db.ControlStore.Result.{Result, ok, err, persistence_failure}

-- An attached persistence and what it holds. `faults` says of each write to come whether it throws.
-- `coalesces` and `journals` say whether it has the optional `requestSave` and `saveValidatorCutoff`, and
-- `quarantines` whether it has `recoverCorruptSnapshot`, which succeeds if the journal's file exists.
pub record Persistence : Type 0 where
  pub attached : Bool
  pub coalesces : Bool
  pub journals : Bool
  pub faults : List Bool
  pub saved : Option ControlStoreSnapshot
  pub save_requested : Bool
  pub quarantines : Bool
  pub journal_exists : Bool
  pub cutoffs : Map Bytes ℕ

pub record ControlStore : Type 0 where
  pub persistence : Persistence
  pub sequence : ℕ
  pub delta_floor : ℕ
  pub maximum_retained_deltas : ℕ
  pub candidates : Map Bytes StoredCandidate
  pub attestations : Map Bytes StoredAttestation
  pub attestations_by_tx : Map Bytes (List Bytes)
  pub heartbeats : Map (Bytes × Bytes) ValidatorHeartbeat
  pub validator_cutoffs : Map Bytes ℕ
  pub ordered_tx_ids : List Bytes
  pub deltas : List ControlStoreDelta
  pub checkpoints : Map ℕ StoredCheckpoint
  pub history_reopenings : Map String HistoryReopening
  pub materialized_head : Option MaterializedHead

-- `snapshot()`
unfoldable pub snapshot : ControlStore → ControlStoreSnapshot
snapshot s = record {
  sequence = s.sequence;
  candidates = values s.candidates;
  attestations = values s.attestations;
  heartbeats = values s.heartbeats;
  ordered_tx_ids = s.ordered_tx_ids;
  deltas = s.deltas;
  delta_floor = some s.delta_floor;
  materialized_head = s.materialized_head;
  checkpoints = values s.checkpoints;
  history_reopenings = values s.history_reopenings;
  validator_cutoffs =
      some (map (λ p. record { validator_id = p.0; accepted_above_ms = p.1 }) s.validator_cutoffs);
}

abbrev pub next_fails : List Bool → Bool
next_fails [] = false
next_fails (b ∷ rest) = b

abbrev pub later_faults : List Bool → List Bool
later_faults [] = []
later_faults (b ∷ rest) = rest

-- `save(snapshot)`: the stored snapshot is replaced, or the write throws and it stays.
unfoldable pub save : ControlStoreSnapshot → Persistence → Result (Unit {0}) × Persistence
save image p = (
  if next_fails p.faults then err persistence_failure else ok tt,
  record p {
    faults = later_faults p.faults;
    saved = if next_fails p.faults then p.saved else some image;
  },
)

-- `#persist()`
unfoldable pub persist_to : ControlStoreSnapshot → Persistence → Result (Unit {0}) × Persistence
unfolding save
persist_to image p =
    if p.attached
    then if p.coalesces then (ok tt, record p { save_requested = true }) else save image p
    else (ok tt, p)

unfoldable pub persist : ControlStore → Result (Unit {0}) × ControlStore
unfolding persist_to snapshot
persist s = let (r, p) = persist_to (snapshot s) s.persistence in (r, record s { persistence = p })

-- `flush()`: a requested save writes the state of the store at that time.
unfoldable pub flush : ControlStore → Result (Unit {0}) × ControlStore
unfolding save snapshot
flush s =
    if s.persistence.attached && s.persistence.save_requested
    then (let (r, p) = save (snapshot s) (record s.persistence { save_requested = false }) in
        (r, record s { persistence = p }))
    else (ok tt, s)

-- The sequence of the last delta that is cut off, `removed.at(-1)!.sequence`.
abbrev pub last_sequence : ℕ → List ControlStoreDelta → ℕ
last_sequence floor removed = elim (get_last? removed) [ none ↦ floor | some d ↦ d.sequence ]

-- `#trimDeltas`: what is cut off is at the front, and the floor moves to its last sequence.
unfoldable pub trim_deltas : ControlStore → ControlStore
trim_deltas s =
    let excess = length s.deltas - s.maximum_retained_deltas in
    record s {
      deltas = drop excess s.deltas;
      delta_floor = last_sequence s.delta_floor (take excess s.deltas);
    }

-- `#appendDelta`
unfoldable pub append_delta : DeltaEvent → ControlStore → ControlStoreDelta × ControlStore
unfolding trim_deltas
append_delta event s =
    let sequenced : ControlStoreDelta = record { sequence = s.sequence + 1; event = event } in
    (
      sequenced,
      trim_deltas (record s { sequence = s.sequence + 1; deltas = s.deltas ++ sequenced ∷ [] }),
    )
