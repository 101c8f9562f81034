-- ===== src/ControlStore/Tests/Restart.antt =====
-- A store that is opened again behind a corrupt snapshot.
use chronolog_db.Prelude.{option_beq, refl, true, none, some, [], ◌∷◌}
use chronolog_db.Prelude.Map
use chronolog_db.Bytes.{bytes_equal}
use chronolog_db.Bytes.Laws.{Bytes_eq}
use chronolog_db.ControlStore.Types.{ControlStoreSnapshot}
use chronolog_db.ControlStore.State.{ControlStore, Persistence}
use chronolog_db.ControlStore.Restore.{empty, open_store}
use chronolog_db.ControlStore.Heads.{persist_validator_cutoff}
use chronolog_db.ControlStore.Restore.Durable.{persist_validator_cutoff-IsDurable}
use chronolog_db.ControlStore.Restore.Journal.{open_store-HasAtLeast}
use chronolog_db.ControlStore.Commands.Monotone.{HasAtLeast}
use chronolog_db.ControlStore.Tests.{memory}

-- It counts three deltas and has none.
abbrev corrupt : ControlStoreSnapshot
corrupt = record {
  sequence = 3;
  candidates = [];
  attestations = [];
  heartbeats = [];
  ordered_tx_ids = [];
  deltas = [];
  delta_floor = none;
  materialized_head = none;
  checkpoints = [];
  history_reopenings = [];
  validator_cutoffs = none;
}

abbrev disk : Persistence
disk = record memory {
  attached = true;
  journals = true;
  quarantines = true;
  journal_exists = true;
  saved = some corrupt;
  cutoffs = (3 ∷ [], 7) ∷ [];
}

abbrev restarted : ControlStore
restarted = record (empty (record disk { saved = none }) 2) { validator_cutoffs = (3 ∷ [], 7) ∷ [] }

open_store-HasAtLeast_example : HasAtLeast restarted.validator_cutoffs (3 ∷ []) 7
unfolding open_store empty Map.get Map.set bytes_equal
open_store-HasAtLeast_example =
    open_store-HasAtLeast disk 2 restarted (3 ∷ []) 7 refl refl refl refl

abbrev restarted_again : ControlStore
restarted_again = record restarted {
  persistence = record disk { saved = none; cutoffs = (3 ∷ [], 9) ∷ [] };
  validator_cutoffs = (3 ∷ [], 9) ∷ [];
}

persist_validator_cutoff-IsDurable_example : HasAtLeast restarted_again.validator_cutoffs (3 ∷ []) 9
unfolding open_store empty Map.get Map.set bytes_equal persist_validator_cutoff option_beq
persist_validator_cutoff-IsDurable_example =
    persist_validator_cutoff-IsDurable (3 ∷ []) 9 restarted 2 restarted_again refl refl refl refl
      refl
