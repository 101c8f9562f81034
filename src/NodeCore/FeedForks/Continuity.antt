-- ===== src/NodeCore/FeedForks/Continuity.antt =====
-- For packages/node-core/src/feed-forks.ts: when the accepted records of a feed are linked.
pub mod Frozen
use chronolog_db.Prelude.{
  ℕ, ◌+◌, ◌-◌, ◌≤◌, ◌≡◌, ◌⊎◌, refl, ap, sym, ◌∙◌, nat_eq, Ordering, false, Option, none, some, List,
  [], ◌∷◌, String, arith, Bool-cases, ltb, Option-cases, inl, inr, ◌==◌, ℕ_eq, String_eq, Option_eq,
  subst, option_beq_iff,
}
use chronolog_db.Prelude.Map
use chronolog_db.Prelude.Map.{Map}
use chronolog_db.NodeCore.FeedForks.{
  TransportRecord, FeedEntry, FeedRepairPlan, Feed, FeedForkRegistry, FeedForkEvidence, Attempt,
  ForkError, succeeds, throws, feed_of, conflict_before, conflict_behind, save, quarantine,
  is_no_date, observe_new, observe_in, observe, ◌>>=◌, validate_record, is_discarded, Observation,
  same_entry,
}
use chronolog_db.NodeCore.FeedForks.RepairPlan.{
  check_chain, create_repair_plan, index_records, verify_repair, apply_repair, require_quarantine,
  resolve, id_at, add_discarded,
}
use chronolog_db.NodeCore.FeedForks.Links.{
  IsLinked, fallback, feed_in, AreLinked, IsContinuous, found-set, IsLinked-set, get_same,
  AreLinked-set, fallback_lem, feed_of-IsLinked, Attempt-cases, fits_before, fits_behind,
}
use chronolog_db.NodeCore.FeedForks.Plans.{
  IsFilled, IsFilled-set, index_records-IsLinked, create_repair_plan-chain, verified_with, made_of,
  verified_chain,
}

module _ (locale_order unit_order : String → String → Ordering) where
  -- A save changes neither feeds nor quarantines.
  pub save-keeps {ℓ} :
      {A : Type ℓ} (a : A) (g : FeedForkRegistry)
      → ((save locale_order unit_order a g).1.feeds ≡ g.feeds)
        × ((save locale_order unit_order a g).1.quarantines ≡ g.quarantines)
  unfolding save
  save-keeps a g = ground arith

  quarantine-feeds :
      (r : TransportRecord) (id : String) (g : FeedForkRegistry)
      → (quarantine locale_order unit_order r id g).1.feeds ≡ g.feeds
  unfolding quarantine
  quarantine-feeds r id g = elim (Bool-cases (is_no_date r.received_at_ms)) [
    | inl late ↦ rw (late, quarantine) refl
    | inr early ↦ rw (early, quarantine) (save-keeps Observation.was_quarantined _).0
  ]

  observe_new_before :
      (r : TransportRecord) (feed : Feed) (g : FeedForkRegistry) (id : String)
      → conflict_before r (Map.get feed (r.sequence - 1)) ≡ some id
      → observe_new locale_order unit_order r feed g ≡ quarantine locale_order unit_order r id g
  unfolding observe_new
  observe_new_before r feed g id h = rw (h, observe_new) refl

  observe_new_behind :
      (r : TransportRecord) (feed : Feed) (g : FeedForkRegistry) (id : String)
      → conflict_before r (Map.get feed (r.sequence - 1)) ≡ none
      → conflict_behind r (Map.get feed (r.sequence + 1)) ≡ some id
      → observe_new locale_order unit_order r feed g ≡ quarantine locale_order unit_order r id g
  unfolding observe_new
  observe_new_behind r feed g id h k = rw (h, k, observe_new) refl

  observe_new_fits :
      (r : TransportRecord) (feed : Feed) (g : FeedForkRegistry)
      → conflict_before r (Map.get feed (r.sequence - 1)) ≡ none
      → conflict_behind r (Map.get feed (r.sequence + 1)) ≡ none
      → (observe_new locale_order unit_order r feed g).1.feeds
        ≡ Map.set g.feeds r.author
            (Map.set feed r.sequence (record { id = r.id; previous = r.previous }))
  unfolding observe_new
  observe_new_fits r feed g h k = rw (h, k, observe_new) (save-keeps Observation.was_accepted _).0

  -- One record keeps the feeds linked.
  observe_new-AreLinked :
      (r : TransportRecord) (feed : Feed) (g : FeedForkRegistry)
      → IsLinked feed
      → AreLinked g.feeds
      → AreLinked (observe_new locale_order unit_order r feed g).1.feeds
  observe_new-AreLinked r feed g linked all =
      elim (Option-cases (conflict_before r (Map.get feed (r.sequence - 1)))) [
        | inr (id, c) ↦
            let same =
              ap (λ z. z.1.feeds) (observe_new_before r feed g id c) ∙ quarantine-feeds r id g in
            subst AreLinked (sym same) all
        | inl before ↦ elim (Option-cases (conflict_behind r (Map.get feed (r.sequence + 1)))) [
          | inr (id, c) ↦
              let same =
                ap (λ z. z.1.feeds) (observe_new_behind r feed g id before c)
                ∙ quarantine-feeds r id g in
              subst AreLinked (sym same) all
          | inl behind ↦
              let e : FeedEntry = record { id = r.id; previous = r.previous } in
              let linked' =
                IsLinked-set feed r.sequence e linked
                  (λ a there one. fits_before r (Map.get feed (r.sequence - 1)) a before there)
                  (λ b there. fits_behind r (Map.get feed (r.sequence + 1)) b behind there) in
              subst AreLinked (sym (observe_new_fits r feed g before behind))
                (AreLinked-set g.feeds r.author (Map.set feed r.sequence e) all linked')
        ]
      ]

  observe_in-AreLinked :
      (r : TransportRecord) (feed : Feed) (g : FeedForkRegistry)
      → IsLinked feed
      → AreLinked g.feeds
      → AreLinked (observe_in locale_order unit_order r feed g).1.feeds
  unfolding observe_in
  observe_in-AreLinked r feed g linked all = elim (Option-cases (Map.get feed r.sequence)) [
    | inl fresh ↦ rw (fresh, observe_in) (observe_new-AreLinked r feed g linked all)
    | inr (existing, there) ↦ elim (Bool-cases (same_entry existing r)) [
      | inl same ↦ rw (there, same, observe_in) all
      | inr differs ↦
          rw (there, differs, observe_in)
            (subst AreLinked (sym (quarantine-feeds r existing.id g)) all)
    ]
  ]

  pub observe-AreLinked :
      (r : TransportRecord) (g : FeedForkRegistry)
      → AreLinked g.feeds
      → AreLinked (observe locale_order unit_order r g).1.feeds
  unfolding observe
  observe-AreLinked r g h = elim (Attempt-cases (validate_record r)) [
    | inr (e, bad) ↦ rw (bad, observe) h
    | inl (u, good) ↦ elim (Bool-cases (is_discarded g r.id)) [
      | inl gone ↦ rw (good, gone, observe) h
      | inr kept ↦ elim (Bool-cases (Map.has g.quarantines r.author)) [
        | inl shut ↦ rw (good, kept, shut, observe) h
        | inr open' ↦
            rw (good, kept, open', observe)
              (observe_in-AreLinked r (feed_of g r.author)
                (record g { feeds = Map.set g.feeds r.author (feed_of g r.author) })
                (feed_of-IsLinked g r.author h)
                (AreLinked-set g.feeds r.author (feed_of g r.author) h
                  (feed_of-IsLinked g r.author h)))
      ]
    ]
  ]

  pub apply_repair-AreLinked :
      (plan : FeedRepairPlan) (g : FeedForkRegistry)
      → AreLinked g.feeds
      → AreLinked (apply_repair locale_order unit_order plan g).1.feeds
  unfolding apply_repair Map.get
  apply_repair-AreLinked plan g h = elim (Attempt-cases (verify_repair plan g)) [
    | inr (e, bad) ↦ rw (bad, apply_repair) h
    | inl ((verified, discarded), good) ↦
        let chain = verified_chain plan g verified discarded good in
        let linked =
          index_records-IsLinked verified.records [] none 0
            (record {
              linked = λ n a b at next. cc;
              short = λ k x there. cc;
              ending = λ x there. cc;
            })
            chain in
        let next = Map.set g.feeds verified.feed_id (index_records verified.records []) in
        rw (good, apply_repair)
          (subst AreLinked
            (sym
              (save-keeps tt (record g {
                discarded = add_discarded discarded g.discarded;
                feeds = next;
                quarantines = Map.delete g.quarantines verified.feed_id;
              })).0)
            (AreLinked-set g.feeds verified.feed_id (index_records verified.records []) h linked))
  ]
