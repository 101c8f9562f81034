-- ===== src/NodeCore/FeedForks/RepairPlan.antt =====
-- createRepairPlan and applyRepair of packages/node-core/src/feed-forks.ts.
use chronolog_db.Prelude.{
  ℕ, ◌+◌, Ordering, compare, Bool, false, Option, none, some, List, [], ◌∷◌, ◌++◌, String, nat_eq,
  get_last?, filter, any, sort, ◌==◌, ℕ_eq, String_eq, Option_eq, if◌then◌else◌,
}
use chronolog_db.Prelude.Map
use chronolog_db.Prelude.Map.{Map}
use chronolog_db.NodeCore.FeedForks.{
  ◌>>=◌, ◌>>◌, succeeds, throws, TransportRecord, FeedForkEvidence, FeedRepairPlan, Attempt, demand,
  Feed, FeedForkRegistry, save, trusted_head_missing, prefix_incomplete, chain_invalid,
  not_quarantined, conflict_not_resolved,
}

-- The loop over the selected records, from the one before.
unfoldable pub check_chain : Option String → ℕ → List TransportRecord → Attempt (Unit {0})
check_chain expected index [] = succeeds tt
check_chain expected index (r ∷ records) =
    let rest = check_chain (some r.id) (index + 1) records in
    demand (r.sequence == index + 1) prefix_incomplete
    >> demand (r.previous == expected) chain_invalid
    >> rest

abbrev pub has_last_id : Option TransportRecord → String → Bool
has_last_id none id = false
has_last_id (some r) id = r.id == id

unfoldable pub create_repair_plan : String → List TransportRecord → String → Attempt FeedRepairPlan
create_repair_plan feed_id records trusted_head_id =
    let selected =
      sort (λ a b. compare a.sequence b.sequence) (filter (λ r. r.author == feed_id) records) in
    demand (has_last_id (get_last? selected) trusted_head_id) trusted_head_missing
    >> check_chain none 0 selected
    >> succeeds
        (record { feed_id = feed_id; trusted_head_id = trusted_head_id; records = selected })

-- The id of the first record with a sequence.
unfoldable pub id_at : ℕ → List TransportRecord → Option String
id_at sequence [] = none
id_at sequence (r ∷ records) =
    let rest = id_at sequence records in if nat_eq r.sequence sequence then some r.id else rest

-- `new Map(records.map(...))`
unfoldable pub index_records : List TransportRecord → Feed → Feed
index_records [] feed = feed
index_records (r ∷ records) feed =
    index_records records (Map.set feed r.sequence (record { id = r.id; previous = r.previous }))

-- The record of a conflict that is not the trusted one.
abbrev pub resolve : FeedForkEvidence → Option String → Attempt String
resolve q none = throws conflict_not_resolved
resolve q (some trusted) =
    if trusted == q.accepted_id
    then succeeds q.conflicting_id
    else if trusted == q.conflicting_id
    then succeeds q.accepted_id
    else throws conflict_not_resolved

abbrev pub require_quarantine : Option FeedForkEvidence → Attempt FeedForkEvidence
require_quarantine none = throws not_quarantined
require_quarantine (some q) = succeeds q

-- `Set.add`
abbrev pub add_discarded : String → List String → List String
add_discarded id ids = if any (λ d. d == id) ids then ids else ids ++ id ∷ []

-- The checks of `applyRepair`: the verified plan and the record that it discards.
unfoldable pub verify_repair : FeedRepairPlan → FeedForkRegistry → Attempt (FeedRepairPlan × String)
verify_repair plan g =
    create_repair_plan plan.feed_id plan.records plan.trusted_head_id >>= λ verified.
    require_quarantine (Map.get g.quarantines verified.feed_id) >>= λ q.
    resolve q (id_at q.sequence verified.records) >>= λ discarded. succeeds (verified, discarded)

module _ (locale_order unit_order : String → String → Ordering) where
  unfoldable pub apply_repair :
      FeedRepairPlan → FeedForkRegistry → Attempt (Unit {0}) × FeedForkRegistry
  apply_repair plan g = elim (verify_repair plan g) [
    | throws e ↦ (throws e, g)
    | succeeds (verified, discarded) ↦ save locale_order unit_order tt (record g {
      discarded = add_discarded discarded g.discarded;
      feeds = Map.set g.feeds verified.feed_id (index_records verified.records []);
      quarantines = Map.delete g.quarantines verified.feed_id;
    })
  ]
