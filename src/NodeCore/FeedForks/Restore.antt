-- ===== src/NodeCore/FeedForks/Restore.antt =====
-- The restoring of a snapshot in packages/node-core/src/feed-forks.ts.
use chronolog_db.Prelude.{
  ℕ, Bool, true, not, ◌||◌, Option, none, some, List, [], ◌∷◌, String, ltb, ◌==◌, ℕ_eq, String_eq,
  Option_eq,
}
use chronolog_db.Prelude.Map
use chronolog_db.Prelude.Map.{Map}
use chronolog_db.NodeCore.FeedForks.RepairPlan.{add_discarded}
use chronolog_db.NodeCore.FeedForks.{
  ◌>>=◌, ◌>>◌, succeeds, FeedEntry, FeedForkEvidence, FeedForkSnapshot, Attempt, demand, Feed,
  FeedForkRegistry, snapshot_invalid,
}

-- The records of one feed of a snapshot.
unfoldable pub restore_records : List (ℕ × FeedEntry) → Feed → Attempt Feed
restore_records [] feed = succeeds feed
restore_records ((sequence, entry) ∷ records) feed =
    let rest = restore_records records (Map.set feed sequence entry) in
    demand (not (ltb sequence 1 || Map.has feed sequence)) snapshot_invalid >> rest

unfoldable pub restore_feeds :
    List (String × List (ℕ × FeedEntry)) → Map String Feed → Attempt (Map String Feed)
restore_feeds [] feeds = succeeds feeds
restore_feeds ((feed_id, records) ∷ others) feeds =
    restore_records records [] >>= λ feed. restore_feeds others (Map.set feeds feed_id feed)

unfoldable pub restore_quarantines :
    List FeedForkEvidence → Map String FeedForkEvidence → Map String FeedForkEvidence
restore_quarantines [] quarantines = quarantines
restore_quarantines (q ∷ others) quarantines =
    restore_quarantines others (Map.set quarantines q.feed_id q)

unfoldable pub restore_discarded : List String → List String → Attempt (List String)
restore_discarded [] discarded = succeeds discarded
restore_discarded (id ∷ ids) discarded =
    let rest = restore_discarded ids (add_discarded id discarded) in
    demand (not (id == "")) snapshot_invalid >> rest

-- The constructor with a persistence that holds `loaded`, whose saves throw as `faults` says.
unfoldable pub restore : Option FeedForkSnapshot → List Bool → Attempt FeedForkRegistry
restore none faults = succeeds (record {
  feeds = [];
  quarantines = [];
  discarded = [];
  attached = true;
  save_faults = faults;
  saved = none;
})
restore (some s) faults = restore_feeds s.feeds [] >>= λ feeds.
    restore_discarded s.discarded_record_ids [] >>= λ discarded. succeeds (record {
      feeds = feeds;
      quarantines = restore_quarantines s.quarantines [];
      discarded = discarded;
      attached = true;
      save_faults = faults;
      saved = some s;
    })
