-- ===== src/NodeCore/FeedForks/Plans.antt =====
-- For packages/node-core/src/feed-forks.ts: the records of a verified repair plan make a linked feed.
use chronolog_db.Prelude.{
  ℕ, ◌+◌, ◌≤◌, ◌≡◌, ap, ◌∙◌, Option, none, some, List, [], ◌∷◌, String, arith, inl, inr, ℕ_eq,
  String_eq, Option_eq, subst, option_beq_iff,
}
use chronolog_db.Prelude.Map
use chronolog_db.Prelude.Map.{Map}
use chronolog_db.NodeCore.FeedForks.{
  TransportRecord, FeedEntry, FeedRepairPlan, Feed, FeedForkRegistry, FeedForkEvidence, Attempt,
  succeeds, ◌>>=◌,
}
use chronolog_db.NodeCore.FeedForks.RepairPlan.{
  check_chain, create_repair_plan, index_records, verify_repair, require_quarantine, resolve, id_at,
}
use chronolog_db.NodeCore.FeedForks.Links.{IsLinked, found-set, IsLinked-set, Attempt-cases}

-- The feed holds the records up to `index`, the last of them with the id `last`.
pub record IsFilled (feed : Feed) (last : Option String) (index : ℕ) : Type 0 where
  pub linked : IsLinked feed
  pub short : (k : ℕ) (x : FeedEntry) → Map.get feed k ≡ some x → k ≤ index
  pub ending : (x : FeedEntry) → Map.get feed index ≡ some x → last ≡ some x.id

pub IsFilled-set :
    (feed : Feed) (last : Option String) (index : ℕ) (r : TransportRecord)
    → IsFilled feed last index
    → r.sequence ≡ index + 1
    → r.previous ≡ last
    → IsFilled
        (Map.set feed r.sequence (record { id = r.id; previous = r.previous }))
        (some r.id)
        (index + 1)
IsFilled-set feed last index r h at follows =
    let e : FeedEntry = record { id = r.id; previous = r.previous } in
    record {
      linked =
          IsLinked-set feed r.sequence e h.linked
            (λ a there one. follows ∙ h.ending a (ap (Map.get feed) (omega (arith, at)) ∙ there))
            (λ b there. absurd (omega (arith, at, h.short (r.sequence + 1) b there)));
      short = λ k x there. elim (found-set feed r.sequence k e x there) [
        | inl (here, same) ↦ omega (arith, here, at)
        | inr old ↦ omega (arith, h.short k x old)
      ];
      ending = λ x there. elim (found-set feed r.sequence (index + 1) e x there) [
        | inl (here, same) ↦ ap (λ z. some z.id) same
        | inr old ↦ absurd (omega (arith, h.short (index + 1) x old))
      ];
    }

-- Records that pass the check of the chain are linked.
pub index_records-IsLinked :
    (records : List TransportRecord) (feed : Feed) (last : Option String) (index : ℕ)
    → IsFilled feed last index
    → check_chain last index records ≡ succeeds tt
    → IsLinked (index_records records feed)
unfolding check_chain index_records
index_records-IsLinked [] feed last index h ok = h.linked
index_records-IsLinked (r ∷ records) feed last index h ok =
    let at : r.sequence ≡ index + 1 = ground arith in
    let follows : r.previous ≡ last = ground (arith, option_beq_iff r.previous last) in
    let rest : check_chain (some r.id) (index + 1) records ≡ succeeds tt = ground arith in
    index_records-IsLinked records
      (Map.set feed r.sequence (record { id = r.id; previous = r.previous })) (some r.id)
      (index + 1) (IsFilled-set feed last index r h at follows) rest

-- A plan that is made is a chain from the first sequence.
pub create_repair_plan-chain :
    (feed_id : String) (records : List TransportRecord) (head : String) (plan : FeedRepairPlan)
    → create_repair_plan feed_id records head ≡ succeeds plan
    → check_chain none 0 plan.records ≡ succeeds tt
unfolding create_repair_plan
create_repair_plan-chain feed_id records head plan h = ground arith

abbrev pub verified_with : FeedRepairPlan → String → Attempt (FeedRepairPlan × String)
verified_with p d = succeeds (p, d)

pub made_of :
    (p : FeedRepairPlan) (o : Option FeedForkEvidence) (verified : FeedRepairPlan)
    (discarded : String)
    → (require_quarantine o >>= λ q.
        resolve q (id_at q.sequence p.records) >>= λ d. verified_with p d)
      ≡ succeeds (verified, discarded)
    → p ≡ verified
made_of p none verified discarded h = cc
made_of p (some q) verified discarded h =
    elim (Attempt-cases (resolve q (id_at q.sequence p.records))) [
      | inl (d, good) ↦ ground (arith, good, h)
      | inr (e, bad) ↦ ground (arith, bad, h)
    ]

pub verified_chain :
    (plan : FeedRepairPlan) (g : FeedForkRegistry) (verified : FeedRepairPlan) (discarded : String)
    → verify_repair plan g ≡ succeeds (verified, discarded)
    → check_chain none 0 verified.records ≡ succeeds tt
unfolding verify_repair
verified_chain plan g verified discarded h =
    elim (Attempt-cases (create_repair_plan plan.feed_id plan.records plan.trusted_head_id)) [
      | inr (e, bad) ↦ ground arith
      | inl (p, good) ↦
          let chain =
            create_repair_plan-chain plan.feed_id plan.records plan.trusted_head_id p good in
          let same : p ≡ verified =
            made_of p (Map.get g.quarantines p.feed_id) verified discarded
              (ground (arith, good, h)) in
          subst (λ z. check_chain none 0 z.records ≡ succeeds tt) same chain
    ]
