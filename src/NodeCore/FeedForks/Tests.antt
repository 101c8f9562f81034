-- ===== src/NodeCore/FeedForks/Tests.antt =====
-- Tests of packages/node-core/src/feed-forks.ts: a record, its conflicting sibling, and a repair.
use chronolog_db.Prelude.{
  sort, filter, insert_sorted, option_beq, any, Ordering, true, false, map, refl, ◌≡◌, String_eq,
  none, some, List, [], ◌∷◌, String,
}
use chronolog_db.Prelude.Map
use chronolog_db.Prelude.Int.{pos}
use chronolog_db.NodeCore.FeedForks.{
  milliseconds, TransportRecord, FeedRepairPlan, FeedForkRegistry, observe, observe_in, observe_new,
  quarantine, save, snapshot, validate_record, succeeds, was_accepted,
}
use chronolog_db.NodeCore.FeedForks.RepairPlan.{
  apply_repair, verify_repair, create_repair_plan, check_chain, id_at, index_records,
}
use chronolog_db.NodeCore.FeedForks.Links.{IsContinuous}
use chronolog_db.NodeCore.FeedForks.Repair.{IsRepaired, apply_repair-IsRepaired}
use chronolog_db.NodeCore.FeedForks.Runs.{
  Event, observed, repaired, run, happen, run-IsContinuous, run-IsFrozen,
}

abbrev as_given : String → String → Ordering
as_given a b = Ordering.eq

abbrev first_record : TransportRecord
first_record = record {
  id = "a";
  author = "feed";
  sequence = 1;
  previous = none;
  received_at_ms = milliseconds (pos 5);
  payload = [];
}

abbrev second_record : TransportRecord
second_record = record {
  id = "b";
  author = "feed";
  sequence = 2;
  previous = some "a";
  received_at_ms = milliseconds (pos 6);
  payload = [];
}

abbrev sibling : TransportRecord
sibling = record {
  id = "c";
  author = "feed";
  sequence = 2;
  previous = some "a";
  received_at_ms = milliseconds (pos 7);
  payload = [];
}

abbrev plan : FeedRepairPlan
plan = record { feed_id = "feed"; trusted_head_id = "c"; records = sibling ∷ first_record ∷ [] }

abbrev empty_registry : FeedForkRegistry
empty_registry = record {
  feeds = [];
  quarantines = [];
  discarded = [];
  attached = true;
  save_faults = false ∷ true ∷ [];
  saved = none;
}

abbrev events : List Event
events = observed first_record ∷ observed second_record ∷ observed sibling ∷ repaired plan ∷ []

empty_registry-IsContinuous : IsContinuous empty_registry
unfolding IsContinuous Map.get
empty_registry-IsContinuous author n a b at next = cc

run-IsContinuous_example : IsContinuous (run as_given as_given events empty_registry)
run-IsContinuous_example =
    run-IsContinuous as_given as_given events empty_registry empty_registry-IsContinuous

-- The registry after the conflict. The second save failed.
abbrev forked : FeedForkRegistry
forked =
    run as_given as_given (observed first_record ∷ observed second_record ∷ observed sibling ∷ [])
      empty_registry

run-IsFrozen_example :
    (Map.get
        (run as_given as_given (map observed (first_record ∷ sibling ∷ [])) forked).feeds
        "feed"
      ≡ Map.get forked.feeds "feed")
    × (Map.has
          (run as_given as_given (map observed (first_record ∷ sibling ∷ [])) forked).quarantines
          "feed"
        ≡ true)
    × (¬ (
        (observe as_given as_given second_record
          (run as_given as_given (map observed (first_record ∷ sibling ∷ [])) forked)).0
        ≡ succeeds was_accepted))
unfolding run happen observe observe_in observe_new quarantine save snapshot validate_record Map.get
    Map.set Map.has option_beq any
run-IsFrozen_example =
    run-IsFrozen as_given as_given second_record (first_record ∷ sibling ∷ []) forked refl

-- The repair discards the record that was accepted first.
repaired_discards : (run as_given as_given events empty_registry).discarded ≡ "b" ∷ []
unfolding run happen observe observe_in observe_new quarantine save snapshot validate_record Map.get
    Map.set Map.has Map.delete apply_repair verify_repair create_repair_plan check_chain id_at
    index_records sort filter insert_sorted option_beq any
repaired_discards = refl

apply_repair-IsRepaired_example :
    IsRepaired "feed" forked (apply_repair as_given as_given plan forked).1
unfolding run happen observe observe_in observe_new quarantine save snapshot validate_record Map.get
    Map.set Map.has Map.delete apply_repair verify_repair create_repair_plan check_chain id_at
    index_records sort filter insert_sorted option_beq any
apply_repair-IsRepaired_example = apply_repair-IsRepaired as_given as_given plan forked refl
