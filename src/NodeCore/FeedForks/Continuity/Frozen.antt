-- ===== src/NodeCore/FeedForks/Continuity/Frozen.antt =====
-- For packages/node-core/src/feed-forks.ts: a quarantined feed does not change until it is repaired.
use chronolog_db.Prelude.{
  ◌+◌, ◌-◌, ◌≡◌, refl, ap, sym, ◌∙◌, Ordering, true, false, String, arith, Bool-cases, Option-cases,
  inl, inr, ◌==◌, ℕ_eq, String_eq, subst,
}
use chronolog_db.Prelude.Map
use chronolog_db.NodeCore.FeedForks.{
  TransportRecord, Feed, FeedForkRegistry, FeedForkEvidence, succeeds, was_accepted,
  was_quarantined, feed_of, conflict_before, conflict_behind, quarantine, observe_new, observe_in,
  observe, validate_record, is_discarded, same_entry, is_no_date, save,
}
use chronolog_db.NodeCore.FeedForks.Links.{Attempt-cases}
use chronolog_db.NodeCore.FeedForks.Continuity.{save-keeps, observe_new_before, observe_new_behind}

-- Two registries agree on the feed and on the quarantine of an author.
abbrev pub AgreeOn : String → FeedForkRegistry → FeedForkRegistry → Type 0
AgreeOn author g next =
    (Map.get next.feeds author ≡ Map.get g.feeds author)
    × (Map.has next.quarantines author ≡ Map.has g.quarantines author)

pub AgreeOn-trans :
    (author : String) (a b c : FeedForkRegistry)
    → AgreeOn author a b
    → AgreeOn author b c
    → AgreeOn author a c
AgreeOn-trans author a b c h k = (k.0 ∙ h.0, k.1 ∙ h.1)

feeds_set :
    (author other : String) (feed : Feed) (g : FeedForkRegistry)
    → (other == author) ≡ false
    → Map.get (Map.set g.feeds other feed) author ≡ Map.get g.feeds author
feeds_set author other feed g h = ground (arith, Map.get-set g.feeds other author feed, h)

has-set :
    (author other : String) (q : FeedForkEvidence) (quarantines : Map.Map String FeedForkEvidence)
    → (other == author) ≡ false
    → Map.has (Map.set quarantines other q) author ≡ Map.has quarantines author
unfolding Map.has
has-set author other q quarantines h = ground (arith, Map.get-set quarantines other author q, h)

module _ (locale_order unit_order : String → String → Ordering) where
  save-AgreeOn {ℓ} :
      {A : Type ℓ} (author : String) (a : A) (g next : FeedForkRegistry)
      → AgreeOn author g next
      → AgreeOn author g (save locale_order unit_order a next).1
  save-AgreeOn author a g next h =
      let kept = save-keeps locale_order unit_order a next in
      (ap (λ z. Map.get z author) kept.0 ∙ h.0, ap (λ z. Map.has z author) kept.1 ∙ h.1)

  quarantine-AgreeOn :
      (author : String) (r : TransportRecord) (id : String) (g : FeedForkRegistry)
      → (r.author == author) ≡ false
      → AgreeOn author g (quarantine locale_order unit_order r id g).1
  unfolding quarantine
  quarantine-AgreeOn author r id g h = elim (Bool-cases (is_no_date r.received_at_ms)) [
    | inl late ↦ rw (late, quarantine) (refl, refl)
    | inr early ↦
        rw (early, quarantine)
          (save-AgreeOn author was_quarantined g _
            (refl, has-set author r.author _ g.quarantines h))
  ]

  observe_new-AgreeOn :
      (author : String) (r : TransportRecord) (feed : Feed) (g : FeedForkRegistry)
      → (r.author == author) ≡ false
      → AgreeOn author g (observe_new locale_order unit_order r feed g).1
  unfolding observe_new
  observe_new-AgreeOn author r feed g h =
      elim (Option-cases (conflict_before r (Map.get feed (r.sequence - 1)))) [
        | inr (id, c) ↦
            subst (λ z. AgreeOn author g z.1)
              (sym (observe_new_before locale_order unit_order r feed g id c))
              (quarantine-AgreeOn author r id g h)
        | inl before ↦ elim (Option-cases (conflict_behind r (Map.get feed (r.sequence + 1)))) [
          | inr (id, c) ↦
              subst (λ z. AgreeOn author g z.1)
                (sym (observe_new_behind locale_order unit_order r feed g id before c))
                (quarantine-AgreeOn author r id g h)
          | inl behind ↦
              rw (before, behind, observe_new)
                (save-AgreeOn author was_accepted g _ (feeds_set author r.author _ g h, refl))
        ]
      ]

  observe_in-AgreeOn :
      (author : String) (r : TransportRecord) (feed : Feed) (g : FeedForkRegistry)
      → (r.author == author) ≡ false
      → AgreeOn author g (observe_in locale_order unit_order r feed g).1
  unfolding observe_in
  observe_in-AgreeOn author r feed g h = elim (Option-cases (Map.get feed r.sequence)) [
    | inl fresh ↦ rw (fresh, observe_in) (observe_new-AgreeOn author r feed g h)
    | inr (existing, there) ↦ elim (Bool-cases (same_entry existing r)) [
      | inl same ↦ rw (there, same, observe_in) (refl, refl)
      | inr differs ↦ rw (there, differs, observe_in) (quarantine-AgreeOn author r existing.id g h)
    ]
  ]

  -- A record of another author changes nothing here.
  observe-AgreeOn :
      (author : String) (r : TransportRecord) (g : FeedForkRegistry)
      → (r.author == author) ≡ false
      → AgreeOn author g (observe locale_order unit_order r g).1
  unfolding observe
  observe-AgreeOn author r g h = elim (Attempt-cases (validate_record r)) [
    | inr (e, bad) ↦ rw (bad, observe) (refl, refl)
    | inl (u, good) ↦ elim (Bool-cases (is_discarded g r.id)) [
      | inl gone ↦ rw (good, gone, observe) (refl, refl)
      | inr kept ↦ elim (Bool-cases (Map.has g.quarantines r.author)) [
        | inl shut ↦ rw (good, kept, shut, observe) (refl, refl)
        | inr open' ↦
            let opened : FeedForkRegistry = record g {
              feeds = Map.set g.feeds r.author (feed_of g r.author);
            } in
            rw (good, kept, open', observe)
              (AgreeOn-trans author g opened
                (observe_in locale_order unit_order r (feed_of g r.author) opened).1
                (feeds_set author r.author (feed_of g r.author) g h, refl)
                (observe_in-AgreeOn author r (feed_of g r.author) opened h))
      ]
    ]
  ]

  -- A record of a quarantined author leaves the registry as it is, and is not accepted.
  pub observe_shut :
      (r : TransportRecord) (g : FeedForkRegistry)
      → Map.has g.quarantines r.author ≡ true
      → ((observe locale_order unit_order r g).1 ≡ g)
        × (¬ ((observe locale_order unit_order r g).0 ≡ succeeds was_accepted))
  unfolding observe
  observe_shut r g h = elim (Attempt-cases (validate_record r)) [
    | inr (e, bad) ↦ rw (bad, observe) (refl, λ k. cc)
    | inl (u, good) ↦ elim (Bool-cases (is_discarded g r.id)) [
      | inl gone ↦ rw (good, gone, observe) (refl, λ k. cc)
      | inr kept ↦ rw (good, kept, h, observe) (refl, λ k. cc)
    ]
  ]

  -- One record leaves a quarantined author as it is.
  pub observe_frozen :
      (author : String) (r : TransportRecord) (g : FeedForkRegistry)
      → Map.has g.quarantines author ≡ true
      → AgreeOn author g (observe locale_order unit_order r g).1
  observe_frozen author r g h = elim (Bool-cases (r.author == author)) [
    | inr other ↦ observe-AgreeOn author r g other
    | inl same ↦
        let one : r.author ≡ author = (String_eq.agrees_iff r.author author).0 same in
        subst (AgreeOn author g) (sym (observe_shut r g (ap (Map.has g.quarantines) one ∙ h)).0)
          (refl, refl)
  ]
