-- ===== src/NodeCore/FeedForks/Repair.antt =====
-- For applyRepair of packages/node-core/src/feed-forks.ts: a repair that returns resolves the conflict.
use chronolog_db.Prelude.{
  ℕ, ◌+◌, ◌≤◌, ◌≡◌, refl, ap, sym, ◌∙◌, nat_eq, Ordering, true, Option, none, some, List, [], ◌∷◌,
  String, arith, Bool-cases, any, any-append, Option-cases, inl, inr, ◌==◌, ℕ_eq, String_eq, subst,
  beq_refl,
}
use chronolog_db.Prelude.Map
use chronolog_db.NodeCore.FeedForks.{
  TransportRecord, FeedEntry, FeedForkEvidence, FeedRepairPlan, Feed, FeedForkRegistry, succeeds,
  feed_of, is_discarded, save,
}
use chronolog_db.NodeCore.FeedForks.RepairPlan.{
  check_chain, index_records, id_at, resolve, verify_repair, create_repair_plan, apply_repair,
  add_discarded,
}
use chronolog_db.NodeCore.FeedForks.Links.{Attempt-cases}
use chronolog_db.NodeCore.FeedForks.Continuity.{save-keeps}
use chronolog_db.NodeCore.FeedForks.Plans.{verified_chain}

-- The records of a chain leave the sequences before it as they were.
index_records_below :
    (records : List TransportRecord) (feed : Feed) (last : Option String) (index n : ℕ)
    → check_chain last index records ≡ succeeds tt
    → n ≤ index
    → Map.get (index_records records feed) n ≡ Map.get feed n
unfolding check_chain index_records
index_records_below [] feed last index n ok below = refl
index_records_below (r ∷ records) feed last index n ok below =
    let at : r.sequence ≡ index + 1 = ground arith in
    let rest : check_chain (some r.id) (index + 1) records ≡ succeeds tt = ground arith in
    let e : FeedEntry = record { id = r.id; previous = r.previous } in
    let later =
      index_records_below records (Map.set feed r.sequence e) (some r.id) (index + 1) n rest
        (omega arith) in
    later ∙ ground (arith, Map.get-set feed r.sequence n e, at)

-- The feed of a chain holds its record of a sequence.
id_at-index_records :
    (records : List TransportRecord) (feed : Feed) (last : Option String) (index n : ℕ) (t : String)
    → check_chain last index records ≡ succeeds tt
    → id_at n records ≡ some t
    → (e : FeedEntry) × (Map.get (index_records records feed) n ≡ some e) × (e.id ≡ t)
unfolding check_chain index_records id_at
id_at-index_records [] feed last index n t ok h = cc
id_at-index_records (r ∷ records) feed last index n t ok h =
    let at : r.sequence ≡ index + 1 = ground arith in
    let rest : check_chain (some r.id) (index + 1) records ≡ succeeds tt = ground arith in
    let e : FeedEntry = record { id = r.id; previous = r.previous } in
    elim (Bool-cases (nat_eq r.sequence n)) [
      | inl here ↦
          let place : n ≤ index + 1 = ground arith in
          (
            e,
            index_records_below records (Map.set feed r.sequence e) (some r.id) (index + 1) n rest
                  place
                ∙ ground (arith, Map.get-set feed r.sequence n e, here),
            ground arith,
          )
      | inr later ↦
          id_at-index_records records (Map.set feed r.sequence e) (some r.id) (index + 1) n t rest
            (ground arith)
    ]

delete_gone : (m : Map.Map String FeedForkEvidence) (k : String) → Map.get (Map.delete m k) k ≡ none
unfolding Map.get Map.delete
delete_gone [] k = refl
delete_gone ((j, w) ∷ m) k = ground (arith, delete_gone m k)

any-add_discarded :
    (id : String) (ids : List String) → any (λ d. d == id) (add_discarded id ids) ≡ true
unfolding any
any-add_discarded id ids = ground (arith, any-append (λ d. d == id) ids (id ∷ []), beq_refl id)

-- Which record of a conflict is trusted, and which is discarded.
pub data IsResolved (q : FeedForkEvidence) : String → String → Type 0 where
  keeps_accepted : IsResolved q q.accepted_id q.conflicting_id
  keeps_conflicting : IsResolved q q.conflicting_id q.accepted_id

resolve-IsResolved :
    (q : FeedForkEvidence) (o : Option String) (d : String)
    → resolve q o ≡ succeeds d
    → (t : String) × (o ≡ some t) × IsResolved q t d
resolve-IsResolved q none d h = cc
resolve-IsResolved q (some t) d h = elim (Bool-cases (t == q.accepted_id)) [
  | inl first ↦
      let kept : q.accepted_id ≡ t = sym ((String_eq.agrees_iff t q.accepted_id).0 first) in
      let gone : q.conflicting_id ≡ d = ground arith in
      (
        t,
        refl,
        subst (λ z. IsResolved q z d) kept (subst (IsResolved q q.accepted_id) gone keeps_accepted),
      )
  | inr other ↦ elim (Bool-cases (t == q.conflicting_id)) [
    | inl second ↦
        let kept : q.conflicting_id ≡ t =
          sym ((String_eq.agrees_iff t q.conflicting_id).0 second) in
        let gone : q.accepted_id ≡ d = ground arith in
        (
          t,
          refl,
          subst (λ z. IsResolved q z d) kept
              (subst (IsResolved q q.conflicting_id) gone keeps_conflicting),
        )
    | inr neither ↦ absurd (ground arith)
  ]
]

create_repair_plan-feed_id :
    (feed_id : String) (records : List TransportRecord) (head : String) (plan : FeedRepairPlan)
    → create_repair_plan feed_id records head ≡ succeeds plan
    → plan.feed_id ≡ feed_id
unfolding create_repair_plan
create_repair_plan-feed_id feed_id records head plan h = ground arith

-- The quarantine behind a verified plan, and what is discarded for it.
verify_repair-resolve :
    (plan : FeedRepairPlan) (g : FeedForkRegistry) (verified : FeedRepairPlan) (d : String)
    → verify_repair plan g ≡ succeeds (verified, d)
    → (verified.feed_id ≡ plan.feed_id)
      × (q : FeedForkEvidence) × (Map.get g.quarantines verified.feed_id ≡ some q)
      × (resolve q (id_at q.sequence verified.records) ≡ succeeds d)
unfolding verify_repair
verify_repair-resolve plan g verified d h =
    elim (Attempt-cases (create_repair_plan plan.feed_id plan.records plan.trusted_head_id)) [
      | inr (e, bad) ↦ absurd (ground arith)
      | inl (p, good) ↦
          let name =
            create_repair_plan-feed_id plan.feed_id plan.records plan.trusted_head_id p good in
          elim (Option-cases (Map.get g.quarantines p.feed_id)) [
            | inl open' ↦ absurd (ground (arith, good, open', h))
            | inr (q, shut) ↦ elim (Attempt-cases (resolve q (id_at q.sequence p.records))) [
              | inr (e, bad) ↦ absurd (ground (arith, good, shut, bad, h))
              | inl (gone, resolved) ↦
                  let same : p ≡ verified = ground (arith, good, shut, resolved, h) in
                  let last : gone ≡ d = ground (arith, good, shut, resolved, h) in
                  (
                    ap (λ z. z.feed_id) (sym same) ∙ name,
                    q,
                    subst (λ z. Map.get g.quarantines z.feed_id ≡ some q) same shut,
                    subst (λ z. resolve q (id_at q.sequence z.records) ≡ succeeds d) same
                        (resolved ∙ ap succeeds last),
                  )
            ]
          ]
    ]

-- The conflict over a feed is resolved: its evidence is gone, the feed has the trusted record `t` at
-- the sequence of the conflict, and the other one, `d`, is discarded.
pub record IsRepaired (feed_id : String) (g next : FeedForkRegistry) : Type 0 where
  pub evidence : FeedForkEvidence
  pub trusted : String
  pub dropped : String
  pub entry : FeedEntry
  pub had_evidence : Map.get g.quarantines feed_id ≡ some evidence
  pub choice : IsResolved evidence trusted dropped
  pub found : Map.get (feed_of next feed_id) evidence.sequence ≡ some entry
  pub entry_is_trusted : entry.id ≡ trusted
  pub is_dropped : is_discarded next dropped ≡ true
  pub is_open : Map.get next.quarantines feed_id ≡ none

module _ (locale_order unit_order : String → String → Ordering) where
  save-discarded {ℓ} :
      {A : Type ℓ} (a : A) (g : FeedForkRegistry)
      → (save locale_order unit_order a g).1.discarded ≡ g.discarded
  unfolding save
  save-discarded a g = ground arith

  -- The registry that a repair saves.
  abbrev repaired_registry : FeedRepairPlan → String → FeedForkRegistry → FeedForkRegistry
  repaired_registry verified d g = record g {
    discarded = add_discarded d g.discarded;
    feeds = Map.set g.feeds verified.feed_id (index_records verified.records []);
    quarantines = Map.delete g.quarantines verified.feed_id;
  }

  repaired_registry-IsRepaired :
      (plan : FeedRepairPlan) (g : FeedForkRegistry) (verified : FeedRepairPlan) (d : String)
      → verify_repair plan g ≡ succeeds (verified, d)
      → IsRepaired verified.feed_id g
          (save {0} locale_order unit_order tt (repaired_registry verified d g)).1
  repaired_registry-IsRepaired plan g verified d h =
      let (name, q, shut, resolved) = verify_repair-resolve plan g verified d h in
      let (t, there, choice) =
        resolve-IsResolved q (id_at q.sequence verified.records) d resolved in
      let (e, at, same) =
        id_at-index_records verified.records [] none 0 q.sequence t
          (verified_chain plan g verified d h) there in
      let fed : feed_of (repaired_registry verified d g) verified.feed_id
          ≡ index_records verified.records [] =
        ground
          (arith, Map.get-set_self g.feeds verified.feed_id (index_records verified.records [])) in
      let kept = save-keeps locale_order unit_order tt (repaired_registry verified d g) in
      record {
        evidence = q;
        trusted = t;
        dropped = d;
        entry = e;
        had_evidence = shut;
        choice = choice;
        found =
            ap
              (λ z.
                Map.get (elim (Map.get z verified.feed_id) [ none ↦ [] | some f ↦ f ]) q.sequence)
              kept.0
            ∙ ap (λ z. Map.get z q.sequence) fed
            ∙ at;
        entry_is_trusted = same;
        is_dropped =
            ap (any (λ x. x == d)) (save-discarded tt (repaired_registry verified d g))
            ∙ any-add_discarded d g.discarded;
        is_open =
            ap (λ z. Map.get z verified.feed_id) kept.1
            ∙ delete_gone g.quarantines verified.feed_id;
      }

  -- If `applyRepair` returns, then the feed of the plan was quarantined and no longer is, its record at the
  -- sequence of the conflict is one of the two that were in conflict, and the other one is discarded.
  pub apply_repair-IsRepaired :
      (plan : FeedRepairPlan) (g : FeedForkRegistry)
      → (apply_repair locale_order unit_order plan g).0 ≡ succeeds tt
      → IsRepaired plan.feed_id g (apply_repair locale_order unit_order plan g).1
  unfolding apply_repair
  apply_repair-IsRepaired plan g h = elim (Attempt-cases (verify_repair plan g)) [
    | inr (e, bad) ↦ absurd (ground (arith, bad, h))
    | inl ((verified, d), good) ↦
        let name = (verify_repair-resolve plan g verified d good).0 in
        rw (good, apply_repair)
          (subst
            (λ z.
              IsRepaired z g
                (save {0} locale_order unit_order tt (repaired_registry verified d g)).1)
            name (repaired_registry-IsRepaired plan g verified d good))
  ]
