-- ===== src/NodeCore/FeedForks/Runs.antt =====
-- Sequences of calls of the registry of packages/node-core/src/feed-forks.ts.
use chronolog_db.Prelude.{◌≡◌, ◌∙◌, refl, true, map, String_eq, String, Ordering, List, [], ◌∷◌}
use chronolog_db.Prelude.Map
use chronolog_db.NodeCore.FeedForks.{
  succeeds, was_accepted, TransportRecord, FeedRepairPlan, FeedForkRegistry, observe,
}
use chronolog_db.NodeCore.FeedForks.RepairPlan.{apply_repair}
use chronolog_db.NodeCore.FeedForks.Links.{IsContinuous}
use chronolog_db.NodeCore.FeedForks.Continuity.{observe-AreLinked, apply_repair-AreLinked}
use chronolog_db.NodeCore.FeedForks.Continuity.Frozen.{
  AgreeOn, AgreeOn-trans, observe_frozen, observe_shut,
}

-- A call of `observe` or of `applyRepair`.
pub data Event : Type 0 where
  observed : TransportRecord → Event
  repaired : FeedRepairPlan → Event

module _ (locale_order unit_order : String → String → Ordering) where
  unfoldable pub happen : Event → FeedForkRegistry → FeedForkRegistry
  happen (observed r) g = (observe locale_order unit_order r g).1
  happen (repaired plan) g = (apply_repair locale_order unit_order plan g).1

  unfoldable pub run : List Event → FeedForkRegistry → FeedForkRegistry
  run [] g = g
  run (e ∷ events) g = run events (happen e g)

  happen-IsContinuous :
      (e : Event) (g : FeedForkRegistry) → IsContinuous g → IsContinuous (happen e g)
  unfolding happen IsContinuous
  happen-IsContinuous (observed r) g h = observe-AreLinked locale_order unit_order r g h
  happen-IsContinuous (repaired plan) g h = apply_repair-AreLinked locale_order unit_order plan g h

  -- If the accepted records of every feed are linked, in that a record whose sequence follows that of
  -- another names its id as its previous one, then they still are after any sequence of observed records
  -- and repairs, also where a call throws.
  pub run-IsContinuous :
      (events : List Event) (g : FeedForkRegistry) → IsContinuous g → IsContinuous (run events g)
  unfolding run
  run-IsContinuous [] g h = h
  run-IsContinuous (e ∷ events) g h =
      run-IsContinuous events (happen e g) (happen-IsContinuous e g h)

  run-stays :
      (author : String) (records : List TransportRecord) (g : FeedForkRegistry)
      → Map.has g.quarantines author ≡ true
      → AgreeOn author g (run (map observed records) g)
  unfolding run happen
  run-stays author [] g h = (refl, refl)
  run-stays author (r ∷ records) g h =
      let once = observe_frozen locale_order unit_order author r g h in
      AgreeOn-trans author g (observe locale_order unit_order r g).1
        (run (map observed records) (observe locale_order unit_order r g).1) once
        (run-stays author records (observe locale_order unit_order r g).1 (once.1 ∙ h))

  -- If the author of a record is quarantined, then after any observed records the feed of this author is
  -- what it was, the author is still quarantined, and the record is not accepted.
  pub run-IsFrozen :
      (r : TransportRecord) (records : List TransportRecord) (g : FeedForkRegistry)
      → Map.has g.quarantines r.author ≡ true
      → (Map.get (run (map observed records) g).feeds r.author ≡ Map.get g.feeds r.author)
        × (Map.has (run (map observed records) g).quarantines r.author ≡ true)
        × (¬ (
            (observe locale_order unit_order r (run (map observed records) g)).0
            ≡ succeeds was_accepted))
  run-IsFrozen r records g h =
      let kept = run-stays r.author records g h in
      (
        kept.0,
        kept.1 ∙ h,
        (observe_shut locale_order unit_order r (run (map observed records) g) (kept.1 ∙ h)).1,
      )
